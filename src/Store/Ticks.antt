-- ===== src/Store/Ticks.antt =====
-- The ticks of the subscribers (pkg/store/store.go, `Put`, `Subscribe` and `Unsubscribe`).
use binnacle.Prelude.{
  ℕ, zero, suc, ◌+◌, ◌<◌, ◌≡◌, refl, ◌≢◌, inl, inr, Bool, true, false, List, [], ◌∷◌, ◌++◌, arith,
  Text, length, set, get_or, ap, ◌∙◌, sym, All, In, Distinct, Distinct-append_one, All-In,
  length-set, length-append, if◌then◌else◌, ◌==◌, Bool-cases,
}
use binnacle.Store.{Store, new, put, subscribe, unsubscribe, receive, notify, remove_sub}

-- A tick waits in the buffer of the channel.
abbrev pub ticked : List Bool → ℕ → Bool
ticked channels ch = get_or channels ch false

pub ticked-set_self :
    (channels : List Bool) (ch : ℕ) (b : Bool)
    → ch < length channels
    → ticked (set channels ch b) ch ≡ b
ticked-set_self [] ch b h = elim h [ ]
ticked-set_self (c ∷ channels) zero b h = refl
ticked-set_self (c ∷ channels) (suc ch) b h = ticked-set_self channels ch b (omega arith)

pub ticked-set_ne :
    (channels : List Bool) (i ch : ℕ) (b : Bool)
    → i ≢ ch
    → ticked (set channels i b) ch ≡ ticked channels ch
ticked-set_ne [] i ch b h = refl
ticked-set_ne (c ∷ channels) zero zero b h = absurd (h refl)
ticked-set_ne (c ∷ channels) zero (suc ch) b h = refl
ticked-set_ne (c ∷ channels) (suc i) zero b h = refl
ticked-set_ne (c ∷ channels) (suc i) (suc ch) b h =
    ticked-set_ne channels i ch b (λ e. h (ap suc e))

-- A tick that waits is not taken away by a send.
pub ticked-set-true :
    (channels : List Bool) (i ch : ℕ)
    → ticked channels ch ≡ true
    → ticked (set channels i true) ch ≡ true
ticked-set-true [] i ch h = h
ticked-set-true (c ∷ channels) zero zero h = refl
ticked-set-true (c ∷ channels) zero (suc ch) h = h
ticked-set-true (c ∷ channels) (suc i) zero h = h
ticked-set-true (c ∷ channels) (suc i) (suc ch) h = ticked-set-true channels i ch h

notify-ticked :
    (subs : List ℕ) (channels : List Bool) (ch : ℕ)
    → ticked channels ch ≡ true
    → ticked (notify subs channels) ch ≡ true
unfolding notify
notify-ticked [] channels ch h = h
notify-ticked (sub ∷ subs) channels ch h =
    notify-ticked subs (set channels sub true) ch (ticked-set-true channels sub ch h)

notify-In :
    (subs : List ℕ) (channels : List Bool) (ch : ℕ)
    → In ch subs
    → ch < length channels
    → ticked (notify subs channels) ch ≡ true
unfolding notify
notify-In [] channels ch i h = elim i [ ]
notify-In (sub ∷ subs) channels ch (inl e) h =
    rw (← e) (notify-ticked subs (set channels ch true) ch (ticked-set_self channels ch true h))
notify-In (sub ∷ subs) channels ch (inr i) h =
    notify-In subs (set channels sub true) ch i (omega (arith, length-set channels sub true))

notify-not_In :
    (subs : List ℕ) (channels : List Bool) (ch : ℕ)
    → (In ch subs → ⊥)
    → ticked (notify subs channels) ch ≡ ticked channels ch
unfolding notify
notify-not_In [] channels ch h = refl
notify-not_In (sub ∷ subs) channels ch h =
    notify-not_In subs (set channels sub true) ch (λ i. h (inr i))
    ∙ ticked-set_ne channels sub ch true (λ e. h (inl (sym e)))

length-notify :
    (subs : List ℕ) (channels : List Bool) → length (notify subs channels) ≡ length channels
unfolding notify
length-notify [] channels = refl
length-notify (sub ∷ subs) channels =
    length-notify subs (set channels sub true) ∙ length-set channels sub true

-- Every subscriber is a channel, and none is subscribed twice.
pub record IsValid {V : Type 0} (s : Store V) : Type 0 where
  pub known : All (λ ch. ch < length s.channels) s.subs
  pub distinct : Distinct s.subs

All-append_one : (xs : List ℕ) (n : ℕ) → All (λ x. x < n) xs → All (λ x. x < n + 1) (xs ++ n ∷ [])
All-append_one [] n h = (omega arith, tt)
All-append_one (x ∷ xs) n h = (omega arith, All-append_one xs n h.1)

not_In_of_below : (xs : List ℕ) (n : ℕ) → All (λ x. x < n) xs → In n xs → ⊥
not_In_of_below xs n a i = absurd (omega (arith, All-In (λ x. x < n) xs n a i))

In-remove_sub_step :
    (ch x sub : ℕ) (subs : List ℕ)
    → (In x (remove_sub ch subs) → In x subs)
    → (b : Bool) → In x (if b then subs else sub ∷ remove_sub ch subs)
    → In x (sub ∷ subs)
In-remove_sub_step ch x sub subs ih true i = inr i
In-remove_sub_step ch x sub subs ih false (inl e) = inl e
In-remove_sub_step ch x sub subs ih false (inr i) = inr (ih i)

pub In-remove_sub : (ch x : ℕ) (subs : List ℕ) → In x (remove_sub ch subs) → In x subs
unfolding remove_sub
In-remove_sub ch x [] i = i
In-remove_sub ch x (sub ∷ subs) i =
    In-remove_sub_step ch x sub subs (In-remove_sub ch x subs) (sub == ch) i

removed_step :
    (ch sub : ℕ) (subs : List ℕ)
    → (In sub subs → ⊥)
    → (In ch (remove_sub ch subs) → ⊥)
    → (b : Bool) → (sub == ch) ≡ b
    → In ch (if b then subs else sub ∷ remove_sub ch subs)
    → ⊥
removed_step ch sub subs fresh ih true e i = let same : sub ≡ ch = ground arith in fresh (rw same i)
removed_step ch sub subs fresh ih false e (inl k) = ground arith
removed_step ch sub subs fresh ih false e (inr i) = ih i

-- With no double subscription one removal is enough.
removed : (ch : ℕ) (subs : List ℕ) → Distinct subs → In ch (remove_sub ch subs) → ⊥
unfolding remove_sub
removed ch [] d i = elim i [ ]
removed ch (sub ∷ subs) d i = removed_step ch sub subs d.0 (removed ch subs d.1) (sub == ch) refl i

All-remove_sub :
    (ch n : ℕ) (subs : List ℕ) → All (λ x. x < n) subs → All (λ x. x < n) (remove_sub ch subs)
unfolding remove_sub
All-remove_sub ch n [] h = h
All-remove_sub ch n (sub ∷ subs) h = elim (Bool-cases (sub == ch)) [
  | inl e ↦ rw e h.1
  | inr e ↦ rw e (h.0, All-remove_sub ch n subs h.1)
]

Distinct-remove_sub : (ch : ℕ) (subs : List ℕ) → Distinct subs → Distinct (remove_sub ch subs)
unfolding remove_sub
Distinct-remove_sub ch [] d = d
Distinct-remove_sub ch (sub ∷ subs) d = elim (Bool-cases (sub == ch)) [
  | inl e ↦ rw e d.1
  | inr e ↦ rw e ((λ i. d.0 (In-remove_sub ch sub subs i)), Distinct-remove_sub ch subs d.1)
]

module _ {V : Type 0} where
  pub new-IsValid : IsValid (new {V = V})
  unfolding new
  new-IsValid = record { known = tt; distinct = tt }

  pub put-IsValid : (key : Text) (v : V) (s : Store V) → IsValid s → IsValid (put key v s)
  unfolding put
  put-IsValid key v s h = record {
    known = rw (length-notify s.subs s.channels) h.known;
    distinct = h.distinct;
  }

  pub subscribe-IsValid : (s : Store V) → IsValid s → IsValid (subscribe s).0
  unfolding subscribe
  subscribe-IsValid s h = record {
    known =
        rw (length-append s.channels (false ∷ []))
          (All-append_one s.subs (length s.channels) h.known);
    distinct =
        Distinct-append_one s.subs (length s.channels)
          (not_In_of_below s.subs (length s.channels) h.known) h.distinct;
  }

  pub unsubscribe-IsValid : (ch : ℕ) (s : Store V) → IsValid s → IsValid (unsubscribe ch s)
  unfolding unsubscribe
  unsubscribe-IsValid ch s h = record {
    known = All-remove_sub ch (length s.channels) s.subs h.known;
    distinct = Distinct-remove_sub ch s.subs h.distinct;
  }

  pub receive-IsValid : (ch : ℕ) (s : Store V) → IsValid s → IsValid (receive ch s)
  unfolding receive
  receive-IsValid ch s h = record {
    known = rw (length-set s.channels ch false) h.known;
    distinct = h.distinct;
  }

  -- In a valid store, a write leaves a tick in the buffer of every subscriber, and leaves the buffer
  -- of every channel that is not subscribed as it was.
  pub put_ticks :
      (key : Text) (v : V) (s : Store V) (ch : ℕ)
      → IsValid s
      → (In ch s.subs → ticked (put key v s).channels ch ≡ true)
        × ((In ch s.subs → ⊥) → ticked (put key v s).channels ch ≡ ticked s.channels ch)
  unfolding put
  put_ticks key v s ch h = (
    (λ i.
        notify-In s.subs s.channels ch i (All-In (λ x. x < length s.channels) s.subs ch h.known i)),
    notify-not_In s.subs s.channels ch,
  )

  abbrev pub put_all : List (Text × V) → Store V → Store V
  put_all [] s = s
  put_all ((key, v) ∷ writes) s = put_all writes (put key v s)

  put_all_silent :
      (writes : List (Text × V)) (s : Store V) (ch : ℕ)
      → IsValid s
      → (In ch s.subs → ⊥)
      → ticked (put_all writes s).channels ch ≡ ticked s.channels ch
  unfolding put
  put_all_silent [] s ch h fresh = refl
  put_all_silent ((key, v) ∷ writes) s ch h fresh =
      put_all_silent writes (put key v s) ch (put-IsValid key v s h) fresh
      ∙ (put_ticks key v s ch h).1 fresh

  -- In a valid store, once a channel is unsubscribed no later write ticks it.
  unsubscribe_silences :
      (writes : List (Text × V)) (s : Store V) (ch : ℕ)
      → IsValid s
      → ticked (put_all writes (unsubscribe ch s)).channels ch ≡ ticked s.channels ch
  unfolding unsubscribe
  unsubscribe_silences writes s ch h =
      put_all_silent writes (unsubscribe ch s) ch (unsubscribe-IsValid ch s h)
        (removed ch s.subs h.distinct)
