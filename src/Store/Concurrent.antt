-- ===== src/Store/Concurrent.antt =====
-- Interleavings of writers, subscribers and readers (pkg/store/store.go). A write updates the map
-- under the lock and sends its ticks after that, so other steps may come between. `pending` holds
-- the sends that are still to be made, in any order, and `stale` tells for each channel whether a
-- snapshot was written since its reader last took a tick.
use binnacle.Prelude.{
  ℕ, zero, suc, ◌+◌, ◌<◌, ◌≡◌, ◌⊎◌, inl, inr, Bool, true, false, List, [], ◌∷◌, ◌++◌, arith, Text,
  length, ◌∙◌, All, In, In-append, In-append_left, In-append_right, ◌==◌, ◌||◌, if◌then◌else◌,
  Bool-cases, length-set, length-append,
}
use binnacle.Store.{Store, new, put_locked, subscribe, unsubscribe, receive, notify}
use binnacle.Store.Ticks.{
  new-IsValid, subscribe-IsValid, unsubscribe-IsValid, receive-IsValid, IsValid, ticked,
  ticked-set_self, ticked-set_ne, ticked-set-true,
}

pub record System (V : Type 0) : Type 0 where
  pub store : Store V
  pub pending : List ℕ
  pub stale : ℕ → Bool

-- Every channel of the list is stale from now on.
abbrev pub mark : List ℕ → (ℕ → Bool) → ℕ → Bool
mark [] stale ch = stale ch
mark (x ∷ xs) stale ch = x == ch || mark xs stale ch

-- The reader of the channel is up to date.
abbrev pub clear : ℕ → (ℕ → Bool) → ℕ → Bool
clear c stale ch = if c == ch then false else stale ch

module _ {V : Type 0} where
  pub data Step : System V → System V → Type 0 where
    write :
        {y : System V} (key : Text) (v : V)
        → Step y (record {
          store = (put_locked key v y.store).0;
          pending = y.pending ++ (put_locked key v y.store).1;
          stale = mark y.store.subs y.stale;
        })
    send :
        {y : System V} (before after : List ℕ) (ch : ℕ)
        → y.pending ≡ before ++ ch ∷ after
        → Step y (record y {
          store = record (y.store) { channels = notify (ch ∷ []) y.store.channels };
          pending = before ++ after;
        })
    take_tick :
        {y : System V} (ch : ℕ)
        → Step y (record y { store = receive ch y.store; stale = clear ch y.stale })
    drop : {y : System V} (ch : ℕ) → Step y (record y { store = unsubscribe ch y.store })
    join_in : {y : System V} → Step y (record y { store = (subscribe y.store).0 })

  pub data Reach (x : System V) : System V → Type 0 where
    here : Reach x x
    next : {y z : System V} → Reach x y → Step y z → Reach x z

  unfoldable pub start : System V
  start = record { store = new; pending = []; stale = λ ch. false }

  -- The store is valid, the pending sends go to channels that exist, and a stale channel has a tick
  -- or a send that is still to come.
  pub record Inv (y : System V) : Type 0 where
    pub valid : IsValid y.store
    pub exist : All (λ ch. ch < length y.store.channels) y.pending
    pub covered :
        (ch : ℕ) → y.stale ch ≡ true → In ch y.pending ⊎ (ticked y.store.channels ch ≡ true)

mark_cases :
    (xs : List ℕ) (stale : ℕ → Bool) (ch : ℕ)
    → mark xs stale ch ≡ true
    → In ch xs ⊎ (stale ch ≡ true)
mark_cases [] stale ch h = inr h
mark_cases (x ∷ xs) stale ch h = elim (Bool-cases (x == ch)) [
  | inl e ↦ inl (inl (ground arith))
  | inr e ↦ elim (mark_cases xs stale ch (ground arith)) [ inl i ↦ inl (inr i) | inr old ↦ inr old ]
]

All-append : (P : ℕ → Type 0) (xs ys : List ℕ) → All P xs → All P ys → All P (xs ++ ys)
All-append P [] ys h k = k
All-append P (x ∷ xs) ys h k = (h.0, All-append P xs ys h.1 k)

All-split :
    (P : ℕ → Type 0) (xs : List ℕ) (c : ℕ) (ys : List ℕ)
    → All P (xs ++ c ∷ ys)
    → All P (xs ++ ys) × P c
All-split P [] c ys h = (h.1, h.0)
All-split P (x ∷ xs) c ys h = let (r, p) = All-split P xs c ys h.1 in ((h.0, r), p)

In-split :
    (a : ℕ) (xs : List ℕ) (c : ℕ) (ys : List ℕ) → In a (xs ++ c ∷ ys) → In a (xs ++ ys) ⊎ (a ≡ c)
In-split a xs c ys i = elim (In-append a xs (c ∷ ys) i) [
  | inl l ↦ inl (In-append_left a xs ys l)
  | inr (inl e) ↦ inr e
  | inr (inr r) ↦ inl (In-append_right a xs ys r)
]

All-longer : (xs : List ℕ) (n : ℕ) {m : ℕ} → All (λ x. x < n) xs → m ≡ n + 1 → All (λ x. x < m) xs
All-longer [] n h e = tt
All-longer (x ∷ xs) n h e = (omega arith, All-longer xs n h.1 e)

ticked-append :
    (channels : List Bool) (ch : ℕ)
    → ticked channels ch ≡ true
    → ticked (channels ++ false ∷ []) ch ≡ true
ticked-append [] ch h = absurd (ground arith)
ticked-append (c ∷ channels) zero h = h
ticked-append (c ∷ channels) (suc ch) h = ticked-append channels ch h

module _ {V : Type 0} where
  write-Inv :
      (key : Text) (v : V) (y : System V)
      → Inv y
      → Inv (record {
        store = (put_locked key v y.store).0;
        pending = y.pending ++ (put_locked key v y.store).1;
        stale = mark y.store.subs y.stale;
      })
  unfolding put_locked
  write-Inv key v y h = record {
    valid = record { known = h.valid.known; distinct = h.valid.distinct };
    exist =
        All-append (λ ch. ch < length y.store.channels) y.pending y.store.subs h.exist
          h.valid.known;
    covered = λ ch s. elim (mark_cases y.store.subs y.stale ch s) [
      | inl i ↦ inl (In-append_right ch y.pending y.store.subs i)
      | inr old ↦ elim (h.covered ch old) [
        | inl i ↦ inl (In-append_left ch y.pending y.store.subs i)
        | inr t ↦ inr t
      ]
    ];
  }

  send-Inv :
      (before after : List ℕ) (c : ℕ) (y : System V)
      → y.pending ≡ before ++ c ∷ after
      → Inv y
      → Inv (record y {
        store = record (y.store) { channels = notify (c ∷ []) y.store.channels };
        pending = before ++ after;
      })
  unfolding notify
  send-Inv before after c y e h =
      let channels = y.store.channels in
      let (others, known) =
        All-split (λ ch. ch < length channels) before c after (rw e at h.exist) in
      record {
        valid = record {
          known = rw (length-set channels c true) h.valid.known;
          distinct = h.valid.distinct;
        };
        exist = rw (length-set channels c true) others;
        covered = λ ch s. elim (h.covered ch s) [
          | inl i ↦ elim (In-split ch before c after (rw e at i)) [
            | inl l ↦ inl l
            | inr same ↦ inr (rw same (ticked-set_self channels c true known))
          ]
          | inr t ↦ inr (ticked-set-true channels c ch t)
        ];
      }

  join_in-Inv : (y : System V) → Inv y → Inv (record y { store = (subscribe y.store).0 })
  unfolding subscribe
  join_in-Inv y h = record {
    valid = unfold subscribe in subscribe-IsValid y.store h.valid;
    exist =
        All-longer y.pending (length y.store.channels) h.exist
          (length-append y.store.channels (false ∷ []));
    covered = λ ch s. elim (h.covered ch s) [
      | inl i ↦ inl i
      | inr t ↦ inr (ticked-append y.store.channels ch t)
    ];
  }

  take_tick-Inv :
      (c : ℕ) (y : System V)
      → Inv y
      → Inv (record y { store = receive c y.store; stale = clear c y.stale })
  unfolding receive
  take_tick-Inv c y h = record {
    valid = unfold receive in receive-IsValid c y.store h.valid;
    exist = rw (length-set y.store.channels c false) h.exist;
    covered = λ ch s. elim (Bool-cases (c == ch)) [
      | inl e ↦ absurd (ground arith)
      | inr e ↦ elim (h.covered ch (ground arith)) [
        | inl i ↦ inl i
        | inr t ↦ inr (ticked-set_ne y.store.channels c ch false (ground arith) ∙ t)
      ]
    ];
  }

  Step-Inv : {y z : System V} → Step y z → Inv y → Inv z
  unfolding unsubscribe
  Step-Inv {y = y} (write key v) h = write-Inv key v y h
  Step-Inv {y = y} (send before after ch e) h = send-Inv before after ch y e h
  Step-Inv {y = y} (take_tick ch) h = take_tick-Inv ch y h
  Step-Inv {y = y} (drop ch) h = record {
    valid = unsubscribe-IsValid ch y.store h.valid;
    exist = h.exist;
    covered = h.covered;
  }
  Step-Inv {y = y} (join_in) h = join_in-Inv y h

  pub Reach-Inv : {y : System V} → Reach start y → Inv y
  unfolding start new
  Reach-Inv here = record {
    valid = new-IsValid;
    exist = tt;
    covered = λ ch s. absurd (ground arith);
  }
  Reach-Inv (next r st) = Step-Inv st (Reach-Inv r)

  -- Whatever the interleaving of writes, sends, reads, subscriptions and their ends: in a state with
  -- no send left to make, every channel that was subscribed at a write and whose reader has taken no
  -- tick since has a tick in its buffer.
  pub no_lost_tick :
      (y : System V) (ch : ℕ)
      → Reach start y
      → y.pending ≡ []
      → y.stale ch ≡ true
      → ticked y.store.channels ch ≡ true
  no_lost_tick y ch r done s = elim ((Reach-Inv r).covered ch s) [
    | inl i ↦ absurd (rw done at i)
    | inr t ↦ t
  ]
