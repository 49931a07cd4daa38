-- ===== src/Fleet/Events/Summary.antt =====
-- What a group of events says of its members (internal/fleet/detail.go, the loop of `GroupEvents`).
use binnacle.Prelude.{
  ℕ, zero, suc, leb, if◌then◌else◌, ◌+◌, ◌≤◌, ◌≡◌, ◌↔◌, ◌⊎◌, inl, inr, refl, Bool, true, List, [],
  ◌∷◌, ◌++◌, Text, text_eq, text_eq_iff, arith, ltb, length, some_of, some_of-append, Bool-cases,
  In, In-append, In-append_left, In-append_right, Distinct, sym, ap, subst, ◌∙◌,
}
use binnacle.Prelude.Int.{ℤ, pos, negsuc}
use binnacle.Model.{Event}
use binnacle.Fleet.Events.{Slot, occurrences_of, new_slot, newest, merge, is_named}

-- What an event counts for: its own count, but at least one.
abbrev pub reported : ℤ → ℕ
reported (pos n) = if leb n 1 then 1 else n
reported (negsuc n) = 1

occurrences_of_lem : (count : ℤ) → occurrences_of count ≡ reported count
unfolding occurrences_of
occurrences_of_lem (pos zero) = refl
occurrences_of_lem (pos (suc n)) = ground arith
occurrences_of_lem (negsuc n) = refl

abbrev pub total_of : List Event → ℕ
total_of [] = 0
total_of (e ∷ es) = reported e.count + total_of es

abbrev pub has_name : Text → Event → Bool
has_name name e = text_eq name e.object_name

-- The event is one of these, but for its first timestamp.
abbrev pub Resembles : Event → List Event → Type 0
Resembles e es = (d : Event) × In d es × (e ≡ record d { first_timestamp = e.first_timestamp })

-- The group counts what its members report, its objects are the distinct names of the members, and its
-- event is one of them, but for its first timestamp, and as late as any.
abbrev pub IsSummary : List Event → Slot → Type 0
IsSummary es s =
    (s.group.occurrences ≡ total_of es)
    × (s.group.objects ≡ length s.names)
    × Distinct s.names
    × ((name : Text) → In name s.names ↔ (some_of (has_name name) es ≡ true))
    × ((e : Event) → In e es → e.last_timestamp ≤ s.group.event.last_timestamp)
    × Resembles s.group.event es

total_of-append :
    (es : List Event) (e : Event) → total_of (es ++ e ∷ []) ≡ total_of es + reported e.count
total_of-append [] e = omega arith
total_of-append (d ∷ es) e = omega (arith, total_of-append es e)

is_named_iff : (name : Text) (names : List Text) → (is_named name names ≡ true) ↔ In name names
is_named_iff name [] = ((λ h. absurd (ground (arith, h))), λ i. elim i [ ])
is_named_iff name (n ∷ ns) = (
  (λ h. elim (Bool-cases (text_eq n name)) [
    | inl e ↦ inl (sym ((text_eq_iff n name).0 e))
    | inr e ↦ inr ((is_named_iff name ns).0 (ground (arith, h, e)))
  ]),
  elim [
    | inl e ↦ ground (arith, e, text_eq_iff n name)
    | inr i ↦ ground (arith, (is_named_iff name ns).1 i)
  ],
)

newest-ge :
    (old e : Event)
    → (old.last_timestamp ≤ (newest old e).last_timestamp)
      × (e.last_timestamp ≤ (newest old e).last_timestamp)
unfolding newest
newest-ge old e = elim (Bool-cases (ltb old.last_timestamp e.last_timestamp)) [
  | inl h ↦ ground (arith, h)
  | inr h ↦ ground (arith, h)
]

pub new_slot-IsSummary : (e : Event) → IsSummary (e ∷ []) (new_slot e)
new_slot-IsSummary e = (
  omega (arith, occurrences_of_lem e.count),
  refl,
  ((λ i. elim i [ ]), tt),
  (λ name. (
    elim [ inl h ↦ ground (arith, h, text_eq_iff name e.object_name) | inr i ↦ elim i [ ] ],
    λ h. inl (ground (arith, h, text_eq_iff name e.object_name)),
  )),
  (λ d. elim [ inl h ↦ rw h (omega arith) | inr i ↦ elim i [ ] ]),
  (e, inl refl, refl),
)

newest-Resembles :
    (es : List Event) (e old : Event) → Resembles old es → Resembles (newest old e) (es ++ e ∷ [])
unfolding newest
newest-Resembles es e old (d, i, q) = elim (Bool-cases (ltb old.last_timestamp e.last_timestamp)) [
  | inl h ↦ (e, In-append_right e es (e ∷ []) (inl refl), ground (arith, h))
  | inr h ↦ (
    d,
    In-append_left d es (e ∷ []) i,
    let kept : newest old e ≡ record old { first_timestamp = (newest old e).first_timestamp } =
          ground (arith, h) in
        kept ∙ ap (λ (x : Event). record x { first_timestamp = (newest old e).first_timestamp }) q,
  )
]

merge-last :
    (es : List Event) (e : Event) (s : Slot)
    → ((d : Event) → In d es → d.last_timestamp ≤ s.group.event.last_timestamp)
    → (d : Event) → In d (es ++ e ∷ [])
    → d.last_timestamp ≤ (merge e s).group.event.last_timestamp
unfolding merge
merge-last es e s h d i =
    let (old, new) = newest-ge s.group.event e in
    elim (In-append d es (e ∷ []) i) [
      | inl j ↦ omega (arith, h d j, old)
      | inr (inl q) ↦ omega (arith, new, ap (λ (e : Event). e.last_timestamp) q)
      | inr (inr j) ↦ elim j [ ]
    ]

merge-names :
    (es : List Event) (e : Event) (names names' : List Text)
    → ((name : Text) → In name names' ↔ (In name names ⊎ (name ≡ e.object_name)))
    → ((name : Text) → In name names ↔ (some_of (has_name name) es ≡ true))
    → (name : Text) → In name names' ↔ (some_of (has_name name) (es ++ e ∷ []) ≡ true)
merge-names es e names names' grown h name =
    let split = some_of-append (has_name name) es (e ∷ []) in
    (
      (λ i. elim ((grown name).0 i) [
        | inl j ↦ ground (arith, split, (h name).0 j)
        | inr q ↦ ground (arith, split, q, text_eq_iff name e.object_name)
      ]),
      λ u. elim (Bool-cases (some_of (has_name name) es)) [
        | inl q ↦ (grown name).1 (inl ((h name).1 q))
        | inr q ↦ (grown name).1 (inr (ground (arith, split, u, q, text_eq_iff name e.object_name)))
      ],
    )

-- One more member keeps the summary right.
pub merge-IsSummary :
    (es : List Event) (e : Event) (s : Slot) → IsSummary es s → IsSummary (es ++ e ∷ []) (merge e s)
unfolding merge
merge-IsSummary es e s (total, objects, distinct, named, last, member) =
    elim (Bool-cases (is_named e.object_name s.names)) [
      | inl q ↦
          let known = (is_named_iff e.object_name s.names).0 q in
          (
            omega (arith, total, total_of-append es e, occurrences_of_lem e.count),
            ground (arith, q, objects),
            rw q distinct,
            rw q (
                merge-names es e s.names s.names
                  (λ name. (
                    (λ i. inl i),
                    elim [ inl i ↦ i | inr r ↦ subst (λ n. In n s.names) (sym r) known ],
                  ))
                  named),
            merge-last es e s last,
            newest-Resembles es e s.group.event member,
          )
      | inr q ↦
          let missing : In e.object_name s.names → ⊥ =
            λ i. absurd (ground (arith, q, (is_named_iff e.object_name s.names).1 i)) in
          (
            omega (arith, total, total_of-append es e, occurrences_of_lem e.count),
            ground (arith, q, objects),
            rw q (missing, distinct),
            rw q (
                merge-names es e s.names (e.object_name ∷ s.names)
                  (λ name. (
                    elim [ inl r ↦ inr r | inr i ↦ inl i ],
                    elim [ inl i ↦ inr i | inr r ↦ inl r ],
                  ))
                  named),
            merge-last es e s last,
            newest-Resembles es e s.group.event member,
          )
    ]
