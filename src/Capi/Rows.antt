-- ===== src/Capi/Rows.antt =====
-- The rows of the join and their order (internal/core/capi/join.go, `Join`).
use mathlib.Core.List.{Perm}
use binnacle.Prelude.{
  ◌≡◌, ◌≢◌, ◌↔◌, ◌⊎◌, inl, inr, sym, ap, ◌∙◌, subst, true, false, ◌||◌, List, [], ◌∷◌, map, Option,
  none, some, arith, Text, text, text_eq, text_eq_iff, text_eq_sound, text_eq_refl, is_empty-ne,
  some_of, some_of-In, In-some_of, Bool-cases, Option-cases, In,
}
use binnacle.Prelude.Orders.{
  by_last-IsWeakOrder, by_text-IsWeakOrder, by_number-IsWeakOrder, by_flag-IsWeakOrder,
}
use binnacle.Prelude.Sort.{
  sort_stable, sort_stable-perm, sort_stable-IsSorted, IsSorted, IsWeakOrder, Pairwise,
  IsSorted-Pairwise,
}
use binnacle.Model.{Machine, Metal3Machine, BareMetalHost}
use binnacle.Capi.{
  HostRow, RoleFunc, activity_rank, machine_moving, host_in_flight, host_state_moving, host_failed,
  row_less, row_of, join,
}

pub row_less-IsWeakOrder : IsWeakOrder row_less
row_less-IsWeakOrder =
    by_number-IsWeakOrder _
      (by_flag-IsWeakOrder _
        (by_text-IsWeakOrder _
          (by_text-IsWeakOrder _ (by_last-IsWeakOrder (λ r. r.machine.name))
            (λ r. r.machine.namespace))
          (λ r. r.role))
        (λ r. r.control_plane))
      activity_rank

abbrev pub moving_phases : List Text
moving_phases = text "Pending" ∷ text "Provisioning" ∷ text "Deleting" ∷ text "Deleted" ∷ []

abbrev pub moving_states : List Text
moving_states =
    text "registering"
    ∷ text "inspecting"
    ∷ text "matchprofile"
    ∷ text "preparing"
    ∷ text "available"
    ∷ text "ready"
    ∷ text "provisioning"
    ∷ text "deprovisioning"
    ∷ text "poweringOffBeforeDelete"
    ∷ text "deleting"
    ∷ []

-- The machine is being created or deleted, or its host is changing its state, or its Metal3Machine has
-- no host yet.
abbrev pub IsMoving : HostRow → Type 0
IsMoving r =
    In r.machine.phase moving_phases
    ⊎ ((b : BareMetalHost) × (r.bare_metal_host ≡ some b) × In b.state moving_states)
    ⊎ ((r.bare_metal_host ≡ none) × (r.metal3_machine ≢ none))

-- The machine has failed, or its host reports an error.
abbrev pub IsTroubled : HostRow → Type 0
IsTroubled r =
    (r.machine.phase ≡ text "Failed")
    ⊎ ((b : BareMetalHost) × (r.bare_metal_host ≡ some b) × (b.error_message ≢ []))

text_of : (s : Text) (ts : List Text) → (some_of (text_eq s) ts ≡ true) ↔ In s ts
text_of s ts = (
  (λ h.
      let (t, i, q) = some_of-In (text_eq s) ts h in
      subst (λ x. In x ts) (sym (text_eq_sound s t q)) i),
  λ i. In-some_of (text_eq s) ts s i (text_eq_refl s),
)

host_in_flight_iff :
    (r : HostRow)
    → (host_in_flight r ≡ true) ↔ (
        ((b : BareMetalHost) × (r.bare_metal_host ≡ some b) × (host_state_moving b ≡ true))
        ⊎ ((r.bare_metal_host ≡ none) × (r.metal3_machine ≢ none)))
unfolding host_in_flight
host_in_flight_iff r = elim (Option-cases r.bare_metal_host) [
  | inr (b, e) ↦ (
    (λ h. inl (b, e, ground (arith, h, e))),
    elim [
      | inl (c, q, m) ↦
          let same : b ≡ c = ground (arith, e, q) in
          let moving : host_state_moving b ≡ true = ap host_state_moving same ∙ m in
          ground (arith, e, moving)
      | inr (q, m) ↦ absurd (ground (arith, e, q))
    ],
  )
  | inl e ↦ elim (Option-cases r.metal3_machine) [
    | inl m ↦ (
      (λ h. absurd (ground (arith, h, e, m))),
      elim [ inl (c, q, k) ↦ absurd (ground (arith, e, q)) | inr (q, k) ↦ absurd (k m) ],
    )
    | inr (x, m) ↦ ((λ h. inr (e, λ q. absurd (ground (arith, m, q)))), λ k. ground (arith, e, m))
  ]
]

IsMoving-iff : (r : HostRow) → ((machine_moving r.machine || host_in_flight r) ≡ true) ↔ IsMoving r
unfolding machine_moving host_state_moving
IsMoving-iff r = (
  (λ h. elim (Bool-cases (machine_moving r.machine)) [
    | inl e ↦ inl ((text_of r.machine.phase moving_phases).0 e)
    | inr e ↦ elim ((host_in_flight_iff r).0 (ground (arith, h, e))) [
      | inl (b, q, m) ↦ inr (inl (b, q, (text_of b.state moving_states).0 m))
      | inr k ↦ inr (inr k)
    ]
  ]),
  elim [
    | inl i ↦ ground (arith, (text_of r.machine.phase moving_phases).1 i)
    | inr (inl (b, q, i)) ↦
        ground (arith, (host_in_flight_iff r).1 (inl (b, q, (text_of b.state moving_states).1 i)))
    | inr (inr k) ↦ ground (arith, (host_in_flight_iff r).1 (inr k))
  ],
)

IsTroubled-iff :
    (r : HostRow)
    → ((text_eq r.machine.phase (text "Failed") || host_failed r) ≡ true) ↔ IsTroubled r
IsTroubled-iff r = (
  (λ h. elim (Bool-cases (text_eq r.machine.phase (text "Failed"))) [
    | inl e ↦ inl (text_eq_sound r.machine.phase (text "Failed") e)
    | inr e ↦ elim (Option-cases r.bare_metal_host) [
      | inl q ↦ absurd (ground (arith, h, e, q))
      | inr (b, q) ↦ inr (b, q, λ m. absurd (ground (arith, h, e, q, m)))
    ]
  ]),
  elim [
    | inl e ↦ ground (arith, e, text_eq_iff r.machine.phase (text "Failed"))
    | inr (b, q, ne) ↦ ground (arith, q, is_empty-ne b.error_message ne)
  ],
)

-- A row may stand before another: it moves if the other does, and it moves or is troubled if the other
-- is troubled.
abbrev pub MayPrecede : HostRow → HostRow → Type 0
MayPrecede x y = (IsMoving y → IsMoving x) × (IsTroubled y → IsMoving x ⊎ IsTroubled x)

row_less-MayPrecede : (x y : HostRow) → row_less y x ≡ false → MayPrecede x y
unfolding activity_rank
row_less-MayPrecede x y h = (
  (λ m. (IsMoving-iff x).0 (let my = (IsMoving-iff y).1 m in ground (arith, h, my))),
  λ t.
      let ty = (IsTroubled-iff y).1 t in
      elim (Bool-cases (machine_moving x.machine || host_in_flight x)) [
        | inl mx ↦ inl ((IsMoving-iff x).0 mx)
        | inr mx ↦ inr ((IsTroubled-iff x).0 (ground (arith, h, ty, mx)))
      ],
)

-- The join has exactly one row for each machine, the rows that move stand before all the others, and of
-- those that do not move the troubled ones before the settled ones.
pub join-order :
    (machines : List Machine) (m3ms : List Metal3Machine) (bmhs : List BareMetalHost)
    (role_fn : Option RoleFunc)
    → Perm (join machines m3ms bmhs role_fn) (map (row_of m3ms bmhs role_fn) machines)
      × IsSorted row_less (join machines m3ms bmhs role_fn)
      × Pairwise MayPrecede (join machines m3ms bmhs role_fn)
unfolding join
join-order machines m3ms bmhs role_fn =
    let rows = map (row_of m3ms bmhs role_fn) machines in
    let sorted = sort_stable-IsSorted row_less row_less-IsWeakOrder rows in
    (
      sort_stable-perm row_less rows,
      sorted,
      IsSorted-Pairwise row_less MayPrecede row_less-MayPrecede (sort_stable row_less rows) sorted,
    )
