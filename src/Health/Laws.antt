-- ===== src/Health/Laws.antt =====
-- What the statuses and the cells promise (pkg/health/health.go, cells.go, pods.go and pinned.go).
use binnacle.Prelude.{
  All, ◌<◌, ℕ, ◌≤◌, ◌≡◌, refl, ◌↔◌, ◌⊎◌, inl, inr, true, false, List, [], ◌∷◌, ◌++◌, Option, none,
  some, arith, Text, Bool-cases, In, ltb, text_eq-ne, text_eq, text_eq_sound, cut_prefix,
  cut_prefix_sound, cut_prefix-append, Option-cases, text,
}
use binnacle.Prelude.Int.{pos, ◌≤ℤ◌, ◌<ℤ◌}
use binnacle.Model.{Pod}
use binnacle.Health.{
  Status, loading, healthy, warn, broken, rank, status_text, worse, Cell, worst, worst_from,
  marshal_status, unmarshal_status, parse_status, needs_attention, starting_status,
  begins_with_digit, starting, pod_grace,
}

worst_from-ge : (s : Status) (cells : List Cell) → rank s ≤ rank (worst_from s cells)
unfolding worst_from worse
worst_from-ge s [] = omega arith
worst_from-ge s (c ∷ cells) = ground (arith, worst_from-ge (worse s c.status) cells)

worst_from_bounds :
    (s : Status) (cells : List Cell) (c : Cell)
    → In c cells
    → rank c.status ≤ rank (worst_from s cells)
unfolding worst_from worse
worst_from_bounds s [] c i = elim i [ ]
worst_from_bounds s (d ∷ cells) c (inl e) =
    rw e (ground (arith, worst_from-ge (worse s d.status) cells))
worst_from_bounds s (d ∷ cells) c (inr i) = worst_from_bounds (worse s d.status) cells c i

worst_from_attained :
    (s : Status) (cells : List Cell)
    → (worst_from s cells ≡ s) ⊎ ((c : Cell) × In c cells × (worst_from s cells ≡ c.status))
unfolding worst_from
worst_from_attained s [] = inl refl
worst_from_attained s (d ∷ cells) = elim (worst_from_attained (worse s d.status) cells) [
  | inl e ↦ elim (Bool-cases (ltb (rank s) (rank d.status))) [
    | inl lt ↦ inr (d, inl refl, unfold worse in ground arith)
    | inr ge ↦ inl (unfold worse in ground arith)
  ]
  | inr (c, i, e) ↦ inr (c, inr i, e)
]

-- The verdict over a strip is an upper bound of its cells' statuses in the order loading < ok < warn <
-- err, and it is the status of one of the cells, or loading.
worst-is_least :
    (cells : List Cell)
    → ((c : Cell) → In c cells → rank c.status ≤ rank (worst cells))
      × ((worst cells ≡ loading) ⊎ ((c : Cell) × In c cells × (worst cells ≡ c.status)))
unfolding worst
worst-is_least cells =
    ((λ c i. worst_from_bounds loading cells c i), worst_from_attained loading cells)

parse-status_text : (s : Status) → parse_status (status_text s) ≡ some s
unfolding parse_status status_text text_eq
parse-status_text loading = refl
parse-status_text healthy = refl
parse-status_text warn = refl
parse-status_text broken = refl

parse_unknown : (t : Text) → ((s : Status) → t ≡ status_text s → ⊥) → parse_status t ≡ none
unfolding parse_status status_text
parse_unknown t other =
    rw
      (
        text_eq-ne t (text "loading") (other loading),
        text_eq-ne t (text "ok") (other healthy),
        text_eq-ne t (text "warn") (other warn),
        text_eq-ne t (text "err") (other broken),
      )
      refl

status_text-ascii : (s : Status) → All (λ b. b < 128) (status_text s)
unfolding status_text
status_text-ascii loading = ground arith
status_text-ascii healthy = ground arith
status_text-ascii warn = ground arith
status_text-ascii broken = ground arith

-- Where the JSON decoder reads back every ASCII text that the encoder wrote, a status survives the wire,
-- and a body with a word that is none of the four, or that is no JSON string, is an error.
pub unmarshal-marshal :
    (encode : Text → Text) (decode : Text → Option Text)
    → ((t : Text) → All (λ b. b < 128) t → decode (encode t) ≡ some t)
    → ((s : Status) → unmarshal_status decode (marshal_status encode s) ≡ some s)
      × ((body t : Text)
          → decode body ≡ some t
          → ((s : Status) → t ≡ status_text s → ⊥)
          → unmarshal_status decode body ≡ none)
      × ((body : Text) → decode body ≡ none → unmarshal_status decode body ≡ none)
unfolding unmarshal_status marshal_status
unmarshal-marshal encode decode law = (
  (λ s. rw (law (status_text s) (status_text-ascii s), unmarshal_status) (parse-status_text s)),
  (λ body t read other. rw (read, unmarshal_status) (parse_unknown t other)),
  (λ body bad. rw (bad, unmarshal_status) refl),
)

-- The statuses of a pod that has not run yet.
abbrev pub IsStartingStatus : Text → Type 0
IsStartingStatus s =
    (s ≡ text "ContainerCreating")
    ⊎ (s ≡ text "PodInitializing")
    ⊎ (s ≡ text "Pending")
    ⊎ ((d : ℕ) × (rest : Text) × (s ≡ text "Init:" ++ d ∷ rest) × (b'0' ≤ d) × (d ≤ b'9'))

digit_first :
    (s rest : Text)
    → cut_prefix s (text "Init:") ≡ some rest
    → begins_with_digit rest ≡ true
    → IsStartingStatus s
digit_first s [] e h = absurd (ground arith)
digit_first s (d ∷ rest) e h = inr (
    inr (inr (d, rest, cut_prefix_sound s (text "Init:") (d ∷ rest) e, ground arith, ground arith)))

starting_status_sound : (s : Text) → starting_status s ≡ true → IsStartingStatus s
unfolding starting_status
starting_status_sound s h = elim (Bool-cases (text_eq s (text "ContainerCreating"))) [
  | inl e ↦ inl (text_eq_sound _ _ e)
  | inr e ↦ elim (Bool-cases (text_eq s (text "PodInitializing"))) [
    | inl f ↦ inr (inl (text_eq_sound _ _ f))
    | inr f ↦ elim (Bool-cases (text_eq s (text "Pending"))) [
      | inl g ↦ inr (inr (inl (text_eq_sound _ _ g)))
      | inr g ↦ elim (Option-cases (cut_prefix s (text "Init:"))) [
        | inl no_init ↦ absurd (ground arith)
        | inr (rest, found) ↦ digit_first s rest found (ground arith)
      ]
    ]
  ]
]

starting_status_complete : (s : Text) → IsStartingStatus s → starting_status s ≡ true
unfolding starting_status text_eq
starting_status_complete s (inl e) = rw e refl
starting_status_complete s (inr (inl e)) = rw e refl
starting_status_complete s (inr (inr (inl e))) = rw e refl
starting_status_complete s (inr (inr (inr (d, rest, e, lo, hi)))) =
    rw (e, cut_prefix-append (text "Init:") (d ∷ rest)) (ground arith)

-- A pod needs attention unless it is healthy or just starting: a pod that is not healthy is excused
-- exactly when it is younger than the grace period, has not restarted, and its status is that of a
-- container being created, a pod being initialized or scheduled, or "Init:" and a digit.
pub needs_attention_iff :
    (p : Pod)
    → (needs_attention p ≡ false) ↔ (
        (p.is_healthy ≡ true)
        ⊎ ((p.age <ℤ pod_grace) × (p.restarts ≤ℤ pos 0) × IsStartingStatus p.status))
unfolding needs_attention starting
needs_attention_iff p = (
  (λ h. elim (Bool-cases p.is_healthy) [
    | inl well ↦ inl well
    | inr sick ↦ inr (ground arith, ground arith, starting_status_sound p.status (ground arith))
  ]),
  elim [
    | inl well ↦ ground arith
    | inr (young, fresh, st) ↦ ground (arith, starting_status_complete p.status st)
  ],
)
