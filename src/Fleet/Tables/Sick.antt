-- ===== src/Fleet/Tables/Sick.antt =====
-- Which pods a page names (internal/fleet/tables.go, `unhealthyPods`).
use mathlib.Core.List.{Perm}
use binnacle.Prelude.{
  ℕ, ◌-◌, ◌≤◌, List, ◌++◌, ◌≡◌, inl, inr, arith, ltb, length, keep, take, drop, take-drop,
  length-drop, length-take-le, take_all, Bool-cases, sym, subst,
}
use binnacle.Prelude.Orders.{by_last-IsWeakOrder}
use binnacle.Prelude.Sort.{
  sort_stable, IsSorted, IsWeakOrder, sort_stable-perm, sort_stable-IsSorted,
}
use binnacle.Health.{needs_attention}
use binnacle.Model.{Pod}
use binnacle.Fleet.Tables.{unhealthy_pods, pod_less, pod_key}

pod_less-IsWeakOrder : IsWeakOrder pod_less
pod_less-IsWeakOrder =
    let o = by_last-IsWeakOrder pod_key in
    record {
      asym = λ x y h. ground (arith, o.asym x y);
      trans_not = λ x y z h k. ground (arith, o.trans_not x y z);
    }

-- Both branches cut the sorted list at the limit.
pub unhealthy_pods-eq :
    (pods : List Pod) (limit : ℕ)
    → let sorted = sort_stable pod_less (keep needs_attention pods) in
      unhealthy_pods pods limit ≡ (take limit sorted, length sorted - limit)
unfolding unhealthy_pods
unhealthy_pods-eq pods limit =
    let sorted = sort_stable pod_less (keep needs_attention pods) in
    elim (Bool-cases (ltb limit (length sorted))) [
      | inl e ↦ ground (arith, e)
      | inr e ↦
          let all = take_all limit sorted (ground arith) in
          let none_left : length sorted - limit ≡ 0 = ground arith in
          ground (arith, e, all, none_left)
    ]

-- What a page shows of the pods, with the number it leaves out: with those left out it is all the pods
-- that need attention in the order of `pod_less`, as many as fit.
abbrev pub IsWorstOf : List Pod → ℕ → List Pod × ℕ → Type 0
IsWorstOf pods limit (shown, truncated) =
    (rest : List Pod) × Perm (shown ++ rest) (keep needs_attention pods)
    × IsSorted pod_less (shown ++ rest)
    × (length rest ≡ truncated)
    × (length shown ≤ limit)

-- The pods shown are the worst of those that need attention, by restarts and then by name, at most as
-- many as the limit, and the number of those left out is right.
unhealthy_pods-IsWorstOf :
    (pods : List Pod) (limit : ℕ) → IsWorstOf pods limit (unhealthy_pods pods limit)
unhealthy_pods-IsWorstOf pods limit =
    let sorted = sort_stable pod_less (keep needs_attention pods) in
    let whole = sym (take-drop limit sorted) in
    subst (IsWorstOf pods limit) (sym (unhealthy_pods-eq pods limit)) (
      drop limit sorted,
      subst (λ l. Perm l (keep needs_attention pods)) whole
          (sort_stable-perm pod_less (keep needs_attention pods)),
      subst (IsSorted pod_less) whole
          (sort_stable-IsSorted pod_less pod_less-IsWeakOrder (keep needs_attention pods)),
      length-drop limit sorted,
      length-take-le limit sorted,
    )
