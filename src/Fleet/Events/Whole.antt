-- ===== src/Fleet/Events/Whole.antt =====
-- Every event of a page is in one group, and the groups say what their members do
-- (internal/fleet/detail.go, `GroupEvents`).
use mathlib.Core.List.{append-nil, append_assoc, Perm}
use binnacle.Prelude.{
  In-some_of, map-In, In-keep, ◌≡◌, ◌≢◌, ◌<◌, false, text, text_eq_iff, ◌↔◌, inl, inr, refl, true,
  List, [], ◌∷◌, ◌++◌, map, arith, ltb, some_of, keep, In, Distinct, sym, ap, subst, ◌∙◌,
}
use binnacle.Prelude.Orders.{by_flag-IsWeakOrder}
use binnacle.Prelude.Sort.{
  IsWeakOrder, Pairwise, IsSorted-Pairwise, sort_stable, sort_stable-In, sort_stable-perm,
  sort_stable-IsSorted,
}
use binnacle.Model.{Event}
use binnacle.Fleet.Events.{
  EventKey, key_of_event, EventGroup, Slot, new_slot, merge, add_events, is_warning, group_less,
  group_events,
}
use binnacle.Fleet.Events.Summary.{IsSummary, new_slot-IsSummary, merge-IsSummary}
use binnacle.Fleet.Events.Groups.{
  is_of, is_of_iff, merge_all, slot_of, entry, key-entry, keep-some, add_events-AreSlots,
}

merge_all-IsSummary :
    (es seen : List Event) (s : Slot) → IsSummary seen s → IsSummary (seen ++ es) (merge_all s es)
unfolding merge_all
merge_all-IsSummary [] seen s h = subst (λ l. IsSummary l s) (sym (append-nil seen)) h
merge_all-IsSummary (e ∷ es) seen s h =
    subst (λ l. IsSummary l (merge_all (merge e s) es)) (append_assoc seen (e ∷ []) es)
      (merge_all-IsSummary es (seen ++ e ∷ []) (merge e s) (merge-IsSummary seen e s h))

slot_of-IsSummary :
    (k : EventKey) (e : Event) (es : List Event) → IsSummary (e ∷ es) (slot_of k (e ∷ es))
unfolding slot_of
slot_of-IsSummary k e es = merge_all-IsSummary es (e ∷ []) (new_slot e) (new_slot-IsSummary e)

entry-IsSummary :
    (es : List Event) (k : EventKey)
    → some_of (is_of k) es ≡ true
    → IsSummary (keep (is_of k) es) (entry es k)
unfolding entry
entry-IsSummary es k u =
    let (d, ds, q) = keep-some (is_of k) es u in
    subst (λ l. IsSummary l (slot_of k l)) (sym q) (slot_of-IsSummary k d ds)

map-key :
    (es : List Event) (ks : List EventKey) → map (λ (s : Slot). s.key) (map (entry es) ks) ≡ ks
map-key es [] = refl
map-key es (k ∷ ks) = cc (key-entry es k, map-key es ks)

In-entries :
    (es : List Event) (s : Slot) (ks : List EventKey)
    → In s (map (entry es) ks)
    → (k : EventKey) × In k ks × (s ≡ entry es k)
In-entries es s [] i = elim i [ ]
In-entries es s (k ∷ ks) (inl e) = (k, inl refl, e)
In-entries es s (k ∷ ks) (inr i) = let (j, l, e) = In-entries es s ks i in (j, inr l, e)

group_less-IsWeakOrder : IsWeakOrder group_less
group_less-IsWeakOrder =
    by_flag-IsWeakOrder (λ (a b : EventGroup). ltb b.event.last_timestamp a.event.last_timestamp)
      (record { asym = λ x y h. ground (arith, h); trans_not = λ x y z h k. ground (arith, h, k) })
      is_warning

-- A group may stand before another: a warning stands before what is none, and of two of one kind the
-- earlier one does not stand first.
abbrev pub MayPrecede : EventGroup → EventGroup → Type 0
MayPrecede x y =
    ((y.event.type ≡ text "Warning") → (x.event.type ≡ text "Warning"))
    × ((x.event.last_timestamp < y.event.last_timestamp)
        → (x.event.type ≡ text "Warning") × (y.event.type ≢ text "Warning"))

group_less-MayPrecede : (x y : EventGroup) → group_less y x ≡ false → MayPrecede x y
group_less-MayPrecede x y h =
    let wx = text_eq_iff x.event.type (text "Warning") in
    let wy = text_eq_iff y.event.type (text "Warning") in
    (
      (λ w. wx.0 (ground (arith, h, wy.1 w))),
      λ lt. (wx.0 (ground (arith, h, lt)), λ w. absurd (ground (arith, h, lt, wy.1 w))),
    )

-- What the groups of some events should be.
abbrev pub AreGroupsOf : List Event → List EventGroup → Type 0
AreGroupsOf es groups =
    (slots : List Slot) × Perm groups (map (λ (s : Slot). s.group) slots)
    × Distinct (map (λ (s : Slot). s.key) slots)
    × ((k : EventKey) → In k (map (λ (s : Slot). s.key) slots) ↔ (some_of (is_of k) es ≡ true))
    × ((s : Slot) → In s slots → IsSummary (keep (is_of s.key) es) s)
    × Pairwise MayPrecede groups

-- An event is told by one of the groups.
pub group_of_event :
    (es : List Event) (e : Event)
    → In e es
    → (g : EventGroup) × In g (group_events es) × (key_of_event g.event ≡ key_of_event e)
unfolding group_events
group_of_event es e i =
    let k = key_of_event e in
    let slots = add_events [] es in
    let groups = map (λ (s : Slot). s.group) slots in
    let (ks, same, distinct, used) =
      add_events-AreSlots es [] []
        ([], refl, tt, λ k. ((λ i. elim i [ ]), λ e. absurd (ground (arith, e)))) in
    let told = In-some_of (is_of k) es e i ((is_of_iff k e).1 refl) in
    let here : In (entry es k) slots =
      subst (In (entry es k)) (sym same) (map-In (entry es) ks k ((used k).1 told)) in
    let (total, objects, names, named, last, member) = entry-IsSummary es k told in
    let g = (entry es k).group in
    (
      g,
      sort_stable-In group_less g groups (map-In (λ (s : Slot). s.group) slots (entry es k) here),
      (let (d, j, q) = member in
          ap key_of_event q ∙ sym ((is_of_iff k d).0 (In-keep (is_of k) es d j).1)),
    )

-- There is one group for each type, reason, kind and message that an event has. It counts what the
-- events with these report, at least one each, its objects are their distinct names, and its event is
-- one of them, but for its first timestamp, and as late as any. The groups stand with the warnings first and the later ones first in each
-- half.
pub group_events_lem : (es : List Event) → AreGroupsOf es (group_events es)
unfolding group_events
group_events_lem es =
    let slots = add_events [] es in
    let groups = map (λ (s : Slot). s.group) slots in
    let (ks, same, distinct, used) =
      add_events-AreSlots es [] []
        ([], refl, tt, λ k. ((λ i. elim i [ ]), λ e. absurd (ground (arith, e)))) in
    let keys : map (λ (s : Slot). s.key) slots ≡ ks =
      ap (map (λ (s : Slot). s.key)) same ∙ map-key es ks in
    (
      slots,
      sort_stable-perm group_less groups,
      subst Distinct (sym keys) distinct,
      (λ k. subst (λ l. In k l ↔ (some_of (is_of k) es ≡ true)) (sym keys) (used k)),
      (λ s i.
          let (k, j, e) = In-entries es s ks (subst (In s) same i) in
          let of_k : s.key ≡ k = ap (λ (s : Slot). s.key) e ∙ key-entry es k in
          subst (λ k. IsSummary (keep (is_of k) es) s) (sym of_k)
            (subst (IsSummary (keep (is_of k) es)) (sym e) (entry-IsSummary es k ((used k).0 j)))),
      IsSorted-Pairwise group_less MayPrecede group_less-MayPrecede (sort_stable group_less groups)
          (sort_stable-IsSorted group_less group_less-IsWeakOrder groups),
    )
