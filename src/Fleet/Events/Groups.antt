-- ===== src/Fleet/Events/Groups.antt =====
-- How the events of a page are grouped (internal/fleet/detail.go, `GroupEvents`).
use mathlib.Core.List.{append-nil, append_assoc}
use binnacle.Prelude.{
  ◌≡◌, ◌≢◌, ◌↔◌, inl, inr, refl, Bool, true, false, ◌&&◌, text_eq, List, [], ◌∷◌, ◌++◌, text_eq_iff,
  arith, some_of, some_of-append, keep, keep-append, keep_none, Bool-cases, sym, ap, subst,
}
use binnacle.Prelude.Gather.{IsGathered, gather-IsGathered}
use binnacle.Prelude.Int.{pos}
use binnacle.Model.{Event}
use binnacle.Fleet.Events.{
  EventKey, Slot, key_eq, key_of_event, new_slot, merge, add_event, add_events,
}

key_eq_iff : (a b : EventKey) → (key_eq a b ≡ true) ↔ (a ≡ b)
unfolding key_eq
key_eq_iff a b = ground (
  arith,
  text_eq_iff a.typ b.typ,
  text_eq_iff a.reason b.reason,
  text_eq_iff a.kind b.kind,
  text_eq_iff a.message b.message,
)

-- The event is one of those with this type, reason, kind and message.
abbrev pub is_of : EventKey → Event → Bool
is_of k e =
    text_eq k.typ e.type
    && text_eq k.reason e.reason
    && text_eq k.kind e.object_kind
    && text_eq k.message e.message

pub is_of_iff : (k : EventKey) (e : Event) → (is_of k e ≡ true) ↔ (k ≡ key_of_event e)
unfolding key_eq
is_of_iff k e = key_eq_iff k (key_of_event e)

unfoldable pub merge_all : Slot → List Event → Slot
merge_all s [] = s
merge_all s (e ∷ es) = merge_all (merge e s) es

abbrev pub no_event : Event
no_event = record {
  namespace = [];
  type = [];
  reason = [];
  object_kind = [];
  object_name = [];
  message = [];
  first_timestamp = 0;
  last_timestamp = 0;
  count = pos 0;
}

-- The slot of a key, made of its members.
unfoldable pub slot_of : EventKey → List Event → Slot
slot_of k [] = record (new_slot no_event) { key = k }
slot_of k (e ∷ es) = record (merge_all (new_slot e) es) { key = k }

unfoldable pub entry : List Event → EventKey → Slot
entry es k = slot_of k (keep (is_of k) es)

merge_all-append :
    (s : Slot) (es : List Event) (e : Event) → merge_all s (es ++ e ∷ []) ≡ merge e (merge_all s es)
unfolding merge_all
merge_all-append s [] e = refl
merge_all-append s (d ∷ es) e = merge_all-append (merge d s) es e

slot_of-append :
    (k : EventKey) (d : Event) (es : List Event) (e : Event)
    → slot_of k ((d ∷ es) ++ e ∷ []) ≡ merge e (slot_of k (d ∷ es))
unfolding slot_of merge
slot_of-append k d es e =
    ap (λ (s : Slot). record s { key = k }) (merge_all-append (new_slot d) es e)

pub keep-some :
    {A : Type 0} (p : A → Bool) (xs : List A)
    → some_of p xs ≡ true
    → (y : A) × (ys : List A) × (keep p xs ≡ y ∷ ys)
keep-some p [] h = absurd (ground (arith, h))
keep-some p (x ∷ xs) h = elim (Bool-cases (p x)) [
  | inl e ↦ (x, keep p xs, ground (arith, e))
  | inr e ↦ let (y, ys, q) = keep-some p xs (ground (arith, h, e)) in (y, ys, ground (arith, e, q))
]

module _ (seen : List Event) (e : Event) where
  abbrev now : List Event
  now = seen ++ e ∷ []

  abbrev mine : EventKey
  mine = key_of_event e

  keep-mine : keep (is_of mine) now ≡ keep (is_of mine) seen ++ e ∷ []
  keep-mine = ground (arith, is_of_iff mine e, keep-append (is_of mine) seen (e ∷ []))

  entry-known : some_of (is_of mine) seen ≡ true → merge e (entry seen mine) ≡ entry now mine
  unfolding entry
  entry-known u =
      let (d, ds, q) = keep-some (is_of mine) seen u in
      rw (keep-mine, q) (sym (slot_of-append mine d ds e))

  entry-new : some_of (is_of mine) seen ≡ false → new_slot e ≡ entry now mine
  unfolding entry slot_of merge_all
  entry-new u = rw (keep-mine, keep_none (is_of mine) seen u) refl

  entry-other : (k : EventKey) → k ≢ mine → entry now k ≡ entry seen k
  unfolding entry
  entry-other k ne = ap (slot_of k) (
      ground (
        arith,
        ne,
        is_of_iff k e,
        keep-append (is_of k) seen (e ∷ []),
        append-nil (keep (is_of k) seen),
      ))

-- One slot for each key, with the summary of the events of that key.
abbrev pub AreSlots : List Event → List Slot → Type 0
AreSlots es = IsGathered (entry es) (λ k. some_of (is_of k) es)

key-slot_of : (k : EventKey) (es : List Event) → (slot_of k es).key ≡ k
unfolding slot_of
key-slot_of k [] = refl
key-slot_of k (e ∷ es) = refl

pub key-entry : (es : List Event) (k : EventKey) → (entry es k).key ≡ k
unfolding entry
key-entry es k = key-slot_of k (keep (is_of k) es)

add_event-AreSlots :
    (seen : List Event) (e : Event) (slots : List Slot)
    → AreSlots seen slots
    → AreSlots (seen ++ e ∷ []) (add_event slots e)
unfolding add_event
add_event-AreSlots seen e slots =
    gather-IsGathered key_eq key_eq_iff (λ (s : Slot). s.key) (entry seen) (entry (seen ++ e ∷ []))
      (key-entry seen) (key_of_event e) (new_slot e) (merge e) (entry-other seen e)
      (λ k. some_of (is_of k) seen) (λ k. some_of (is_of k) (seen ++ e ∷ []))
      (λ k. ground (
        arith,
        some_of-append (is_of k) seen (e ∷ []),
        key_eq_iff k (key_of_event e),
        is_of_iff k e,
      ))
      (entry-known seen e) (entry-new seen e) slots

pub add_events-AreSlots :
    (es : List Event) (seen : List Event) (slots : List Slot)
    → AreSlots seen slots
    → AreSlots (seen ++ es) (add_events slots es)
unfolding add_events
add_events-AreSlots [] seen slots a = subst (λ l. AreSlots l slots) (sym (append-nil seen)) a
add_events-AreSlots (e ∷ es) seen slots a =
    subst (λ l. AreSlots l (add_events (add_event slots e) es)) (append_assoc seen (e ∷ []) es)
      (add_events-AreSlots es (seen ++ e ∷ []) (add_event slots e)
        (add_event-AreSlots seen e slots a))
