-- ===== src/Fleet/Views/Card/Order.antt =====
-- The page of a fleet does not depend on the order in which Go ranges over the map of its clusters
-- (internal/fleet/fleet.go, `View` with `sortViews`).
use mathlib.Core.List.{Perm}
use mathlib.Core.List.Perm
use binnacle.Prelude.{
  ℕ, ℕ_discrete, Bool, true, false, List, [], ◌∷◌, map, Option, none, some, Text, ◌≡◌, ◌≢◌, ◌⊎◌,
  inl, inr, refl, arith, is_empty, Bool-cases, Option-cases, ap, sym, subst, ◌∙◌, text_eq,
  text_eq_iff, text_lt, text_lt-total, ◌<◌, In, Distinct,
}
use binnacle.Prelude.Orders.{by_last, by_text, by_last-IsWeakOrder, by_text-IsWeakOrder}
use binnacle.Prelude.Sort.{
  IsWeakOrder, Pairwise, IsSorted-Pairwise, sort_stable, sort_stable-perm, sort_stable-IsSorted,
}
use binnacle.Prelude.Reorder.{Comparable, sort_stable-order, Distinct-key}
use binnacle.Model.{
  Snapshot, Node, Workload, Pod, Value, as_nodes, as_workloads, as_pods, key_workload_nodes,
  key_workload_workloads, key_workload_pods,
}
use binnacle.Store.{Store, get}
use binnacle.Profile.{NodeRoles}
use binnacle.Health.{Status, loading, healthy, warn, broken, rank}
use binnacle.Fleet.Views.{ClusterView}
use binnacle.Fleet.Views.Management.Kept.{Rest, rest_of-read_management}
use binnacle.Fleet.Views.Workloads.{
  read_silence, read_nodes, read_workload, with_nodes, with_workloads, with_pods,
}
use binnacle.Fleet.Views.Card.{
  Tracked, Outside, problem_of, age_of, base_view, darken, view, view_less, fleet_view,
}

Key_discrete : Discrete (Text × Text)
Key_discrete = hlevel ℕ_discrete

views_set : IsSet (List ClusterView)
views_set = hlevel

by_name : ClusterView → ClusterView → Bool
by_name = by_text (λ (v : ClusterView). v.namespace) (by_last (λ (v : ClusterView). v.name))

view_less-IsWeakOrder : IsWeakOrder view_less
unfolding view_less
view_less-IsWeakOrder =
    let o =
      by_text-IsWeakOrder (by_last (λ (v : ClusterView). v.name))
        (by_last-IsWeakOrder (λ (v : ClusterView). v.name)) (λ (v : ClusterView). v.namespace) in
    record {
      asym = λ x y h. ground (arith, o.asym x y);
      trans_not = λ x y z h k. ground (arith, o.trans_not x y z);
    }

-- A cluster's key in the map.
abbrev pub key_of : ClusterView → Text × Text
key_of v = (v.namespace, v.name)

abbrev pub key_of_tracked : Outside × Tracked → Text × Text
key_of_tracked (out, t) = (t.namespace, t.name)

view_less-total :
    (x y : ClusterView) → key_of x ≢ key_of y → (view_less x y ≡ true) ⊎ (view_less y x ≡ true)
unfolding view_less
view_less-total x y ne = elim (Bool-cases (text_eq x.namespace y.namespace)) [
  | inr e ↦ ground (
    arith,
    e,
    text_eq_iff x.namespace y.namespace,
    text_eq_iff y.namespace x.namespace,
    text_lt-total x.namespace y.namespace,
  )
  | inl e ↦ ground (
    arith,
    e,
    ne,
    text_eq_iff x.namespace y.namespace,
    text_eq_iff y.namespace x.namespace,
    text_eq_iff x.name y.name,
    text_lt-total x.name y.name,
  )
]

key_of-with_pods : (o : Option (Snapshot Pod)) (v : ClusterView) → key_of (with_pods o v) ≡ key_of v
unfolding with_pods
key_of-with_pods none v = refl
key_of-with_pods (some snap) v = refl

key_of-with_workloads :
    (o : Option (Snapshot Workload)) (v : ClusterView) → key_of (with_workloads o v) ≡ key_of v
unfolding with_workloads
key_of-with_workloads none v = refl
key_of-with_workloads (some snap) v = refl

key_of-read_nodes :
    (roles : NodeRoles) (snap : Snapshot Node) (ws : Option (Snapshot Workload))
    (ps : Option (Snapshot Pod)) (v : ClusterView)
    → key_of (read_nodes roles snap ws ps v).0 ≡ key_of v
unfolding read_nodes with_nodes
key_of-read_nodes roles snap ws ps v = ground (
  arith,
  key_of-with_pods ps (with_workloads ws (with_nodes roles snap v)),
  key_of-with_workloads ws (with_nodes roles snap v),
)

key_of-read_silence :
    (show : ℕ → Text) (probe_err : Option Text) (probed : Bool) (age : ℕ) (v : ClusterView)
    → key_of (read_silence show probe_err probed age v).0 ≡ key_of v
unfolding read_silence
key_of-read_silence show probe_err probed age v = ground arith

key_of-read_workload :
    (show : ℕ → Text) (s : Store Value) (roles : NodeRoles) (probe_err : Option Text)
    (probed : Bool) (age : ℕ) (v : ClusterView)
    → key_of (read_workload show s roles probe_err probed age v).0 ≡ key_of v
unfolding read_workload
key_of-read_workload show s roles probe_err probed age v =
    elim (Option-cases (get as_nodes s key_workload_nodes)) [
      | inl e ↦ ground (arith, e, key_of-read_silence show probe_err probed age v)
      | inr (snap, e) ↦
          let ws = get as_workloads s key_workload_workloads in
          let ps = get as_pods s key_workload_pods in
          ground (arith, e, key_of-read_nodes roles snap ws ps v)
    ]

key_of-darken : (r : ClusterView × Bool) → key_of (darken r) ≡ key_of r.0
key_of-darken (v, true) = refl
key_of-darken (v, false) = refl

key_of-view :
    (out : Outside) (roles : NodeRoles) (now : ℕ) (t : Tracked)
    → key_of (view out roles now t) ≡ (t.namespace, t.name)
unfolding view base_view
key_of-view out roles now t = elim (Bool-cases (is_empty (problem_of t))) [
  | inr e ↦ ground (arith, e)
  | inl e ↦
      let v = base_view out roles t in
      let r =
        read_workload out.show_age t.store roles t.workload_err t.workload_probe (age_of t now) v in
      let same : view out roles now t ≡ darken r = ground (arith, e) in
      ap key_of same
      ∙ key_of-darken r
      ∙ key_of-read_workload out.show_age t.store roles t.workload_err t.workload_probe
          (age_of t now) v
      ∙ ap (λ (r : Rest). (r.namespace, r.name)) (rest_of-read_management t.store _)
]

module _ (roles : NodeRoles) (now : ℕ) where
  abbrev view_of : Outside × Tracked → ClusterView
  view_of = λ (out, t). view out roles now t

  keys-view : (xs : List (Outside × Tracked)) → map key_of (map view_of xs) ≡ map key_of_tracked xs
  keys-view [] = refl
  keys-view (x ∷ xs) = cc (key_of-view x.0 roles now x.1, keys-view xs)

  view-Comparable :
      (xs : List (Outside × Tracked))
      → Distinct (map key_of_tracked xs)
      → (x y : ClusterView) → In x (map view_of xs)
      → In y (map view_of xs)
      → Comparable view_less x y
  view-Comparable xs d x y i j = elim (Key_discrete (key_of x) (key_of y)) [
    | yes e ↦ inr (
        inr
          (Distinct-key key_of (map view_of xs) (subst Distinct (sym (keys-view xs)) d) x y i j e))
    | no ne ↦ elim (view_less-total x y ne) [ inl h ↦ inl h | inr h ↦ inr (inl h) ]
  ]

-- How bad a status is.
abbrev pub severity : Status → ℕ
severity loading = 0
severity healthy = 1
severity warn = 2
severity broken = 3

rank_lem : (s : Status) → rank s ≡ severity s
rank_lem loading = refl
rank_lem healthy = refl
rank_lem warn = refl
rank_lem broken = refl

-- A card may stand before another: its status is worse, or it is as bad and its namespace is less, or
-- that is the same too and its name is not greater.
abbrev pub MayPrecede : ClusterView → ClusterView → Type 0
MayPrecede x y =
    (severity y.status < severity x.status)
    ⊎ ((severity y.status ≡ severity x.status)
        × ((text_lt x.namespace y.namespace ≡ true)
            ⊎ ((x.namespace ≡ y.namespace) × (text_lt y.name x.name ≡ false))))

view_less-MayPrecede : (x y : ClusterView) → view_less y x ≡ false → MayPrecede x y
unfolding view_less
view_less-MayPrecede x y h = ground (
  arith,
  h,
  rank_lem x.status,
  rank_lem y.status,
  text_eq_iff x.namespace y.namespace,
  text_eq_iff y.namespace x.namespace,
  text_lt-total x.namespace y.namespace,
)

-- For clusters with distinct keys in whatever order, the page is the same; it goes from the worst
-- status to the best, by namespace and name where these tie, and has one card for each cluster.
pub fleet_view-order :
    (roles : NodeRoles) (now : ℕ) (xs ys : List (Outside × Tracked))
    → Perm xs ys
    → Distinct (map key_of_tracked xs)
    → (fleet_view roles now xs ≡ fleet_view roles now ys)
      × Pairwise MayPrecede (fleet_view roles now xs)
      × Perm (map key_of (fleet_view roles now xs)) (map key_of_tracked xs)
unfolding fleet_view
fleet_view-order roles now xs ys p d =
    let vs = map (view_of roles now) xs in
    (
      sort_stable-order view_less view_less-IsWeakOrder views_set vs (map (view_of roles now) ys)
          (Perm.map (view_of roles now) p) (view-Comparable roles now xs d),
      IsSorted-Pairwise view_less MayPrecede view_less-MayPrecede (sort_stable view_less vs)
          (sort_stable-IsSorted view_less view_less-IsWeakOrder vs),
      subst (Perm (map key_of (sort_stable view_less vs))) (keys-view roles now xs)
          (Perm.map key_of (sort_stable-perm view_less vs)),
    )
