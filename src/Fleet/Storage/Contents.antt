-- ===== src/Fleet/Storage/Contents.antt =====
-- What a storage cluster holds, and which of two is the worse (internal/fleet/storage.go, `StorageFor`
-- and `worst`).
use binnacle.Prelude.{
  ℕ, ◌≤◌, ◌<◌, ◌≡◌, ◌⊎◌, inl, inr, refl, false, List, [], ◌∷◌, map, Option, none, some, Text,
  text_lt, arith, keep, In, Bool-cases, ltb, ap,
}
use binnacle.Prelude.Orders.{by_last-IsWeakOrder}
use binnacle.Model.{BareMetalHost}
use binnacle.Fleet.Tables.{all_rows, host_rank, host_quiet, split_hosts}
use binnacle.Fleet.Tables.Folds.{IsFolded, split-IsFolded}
use binnacle.Fleet.Storage.{
  CephReport, CephStatus, StorageCluster, worst_of, worst, first_status, cluster_of, storage_less,
}
use binnacle.Fleet.Storage.Groups.{is_ceph_of, is_about, group_of}
use binnacle.Fleet.Storage.Roles.{sickness, IsRoleTable, storage_roles-IsRoleTable}

worst_of-le : (m : ℕ) (hs : List BareMetalHost) → worst_of m hs ≤ m
unfolding worst_of
worst_of-le m [] = omega arith
worst_of-le m (h ∷ hs) = elim (Bool-cases (ltb (host_rank h) m)) [
  | inl e ↦ ground (arith, e, worst_of-le (host_rank h) hs)
  | inr e ↦ ground (arith, e, worst_of-le m hs)
]

worst_of-In :
    (m : ℕ) (hs : List BareMetalHost) (h : BareMetalHost) → In h hs → worst_of m hs ≤ host_rank h
unfolding worst_of
worst_of-In m [] h i = elim i [ ]
worst_of-In m (g ∷ hs) h (inl q) =
    let same : host_rank h ≡ host_rank g = ap host_rank q in
    elim (Bool-cases (ltb (host_rank g) m)) [
      | inl e ↦ ground (arith, e, same, worst_of-le (host_rank g) hs)
      | inr e ↦ ground (arith, e, same, worst_of-le m hs)
    ]
worst_of-In m (g ∷ hs) h (inr i) = elim (Bool-cases (ltb (host_rank g) m)) [
  | inl e ↦ ground (arith, e, worst_of-In (host_rank g) hs h i)
  | inr e ↦ ground (arith, e, worst_of-In m hs h i)
]

worst_of_attained :
    (m : ℕ) (hs : List BareMetalHost)
    → (worst_of m hs ≡ m) ⊎ ((g : BareMetalHost) × In g hs × (host_rank g ≡ worst_of m hs))
unfolding worst_of
worst_of_attained m [] = inl refl
worst_of_attained m (h ∷ hs) = elim (Bool-cases (ltb (host_rank h) m)) [
  | inl e ↦ elim (worst_of_attained (host_rank h) hs) [
    | inl q ↦ inr (h, inl refl, ground (arith, e, q))
    | inr (g, i, q) ↦ inr (g, inr i, ground (arith, e, q))
  ]
  | inr e ↦ elim (worst_of_attained m hs) [
    | inl q ↦ inl (ground (arith, e, q))
    | inr (g, i, q) ↦ inr (g, inr i, ground (arith, e, q))
  ]
]

sickness_lem : host_rank ≡ sickness
unfolding host_rank
sickness_lem = refl

module _ {R : Type 0} where
  -- For each sick host of the second there is one of the first that is as bad. A host is sick by an
  -- error message, which is worse, or by a bad operational status.
  abbrev pub AsBad : StorageCluster R → StorageCluster R → Type 0
  AsBad x y =
      (h : BareMetalHost)
      → In h (all_rows y.hosts)
      → sickness h < 2
      → (g : BareMetalHost) × In g (all_rows x.hosts) × (sickness g ≤ sickness h)

  worst-AsBad : (x y : StorageCluster R) → worst x ≤ worst y → AsBad x y
  unfolding worst
  worst-AsBad x y le h i sick =
      let low = worst_of-In host_quiet (all_rows y.hosts) h i in
      let at = λ (g : BareMetalHost). ap (λ f. f g) sickness_lem in
      elim (worst_of_attained host_quiet (all_rows x.hosts)) [
        | inl q ↦ absurd (omega (arith, le, low, sick, q, at h))
        | inr (g, j, q) ↦ (g, j, omega (arith, le, low, q, at h, at g))
      ]

  AsBad-worst : (x y : StorageCluster R) → AsBad x y → worst x ≤ worst y
  unfolding worst
  AsBad-worst x y bad = elim (worst_of_attained host_quiet (all_rows y.hosts)) [
    | inl q ↦ omega (arith, q, worst_of-le host_quiet (all_rows x.hosts))
    | inr (h, i, q) ↦ elim (Bool-cases (ltb (sickness h) 2)) [
      | inl e ↦
          let (g, j, le) = bad h i (ground (arith, e)) in
          let at = λ (g : BareMetalHost). ap (λ f. f g) sickness_lem in
          omega (arith, q, le, at h, at g, worst_of-In host_quiet (all_rows x.hosts) g j)
      | inr e ↦
          let well : 2 ≤ sickness h = ground (arith, e) in
          let at : host_rank h ≡ sickness h = ap (λ f. f h) sickness_lem in
          omega (arith, q, well, at, worst_of-le host_quiet (all_rows x.hosts))
    ]
  ]

  -- A cluster may stand before another: it is as bad, and where the other is as bad too, the other's
  -- fsid is not less.
  abbrev pub MayPrecede : StorageCluster R → StorageCluster R → Type 0
  MayPrecede x y = AsBad x y × (AsBad y x → text_lt y.fsid x.fsid ≡ false)

  pub storage_less-MayPrecede : (x y : StorageCluster R) → storage_less y x ≡ false → MayPrecede x y
  storage_less-MayPrecede x y h = (
    worst-AsBad x y (ground (arith, h)),
    λ b. let le = AsBad-worst y x b in ground (arith, h, le),
  )

  abbrev pub status_in : List (CephReport R) → Option (CephStatus R)
  status_in [] = none
  status_in (r ∷ rs) = some r.status

  first_status_lem : (rs : List (CephReport R)) → first_status rs ≡ status_in rs
  first_status_lem [] = refl
  first_status_lem (r ∷ rs) = refl

  -- The cluster shows all the Ceph hosts with its fsid, the worst first, with quiet ones folded away
  -- only, their roles, what the first report on it says, and who reports on it, in order.
  abbrev pub IsClusterOf : List BareMetalHost → List (CephReport R) → StorageCluster R → Type 0
  IsClusterOf hosts reports c =
      let mine = keep (is_ceph_of c.fsid) hosts in
      let about = keep (is_about c.fsid) reports in
      IsFolded sickness (λ (g h : BareMetalHost). text_lt g.name h.name) 2 mine c.hosts
      × IsRoleTable mine c.by_role
      × (c.status ≡ status_in about)
      × (c.reported_by ≡ map (λ (r : CephReport R). r.cluster) about)

  pub cluster_of-IsClusterOf :
      (hosts : List BareMetalHost) (reports : List (CephReport R)) (fsid : Text)
      → IsClusterOf hosts reports (cluster_of (group_of hosts reports fsid))
  unfolding cluster_of split_hosts host_rank
  cluster_of-IsClusterOf hosts reports fsid =
      let mine = keep (is_ceph_of fsid) hosts in
      (
        split-IsFolded sickness (λ (g h : BareMetalHost). text_lt g.name h.name) host_quiet mine
            (by_last-IsWeakOrder (λ (h : BareMetalHost). h.name)),
        storage_roles-IsRoleTable mine,
        first_status_lem (keep (is_about fsid) reports),
        refl,
      )
