-- ===== src/Health/Consistent.antt =====
-- The rollout cell of the banner (pkg/health/cells.go) against the rollout detector
-- (pkg/rollout/rollout.go): one adds up replicas, the other looks at each resource.
use binnacle.Prelude.{
  is_empty, ℕ, ◌+◌, ◌≤◌, ◌<◌, ◌≡◌, refl, ◌↔◌, Bool, true, List, [], ◌∷◌, ◌++◌, some, arith, Text,
  text_lt, All, ltb, not, ◌&&◌, ◌||◌, some_of, ◌∙◌, ap,
}
use binnacle.Prelude.Int.{ℤ, pos, negsuc, ◌+ℤ◌, pos_part, neg_part, wrap32, wrap32-eq}
use binnacle.Prelude.Sort.{is_empty-sort_stable}
use binnacle.Model.{
  Value, KubeadmControlPlane, MachineDeployment, as_kcps, as_machine_deployments, key_mgmt_kcps,
  key_mgmt_machine_deployments, kcp_rolling, deployment_rolling, behind,
}
use binnacle.Health.{warn, Cell}
use binnacle.Health.Cells.{
  sum_kcps, sum_deployments, totals_cell, rollout_cell, cell_rollout, items_of,
}
use binnacle.Profile.{NodeRoles}
use binnacle.Rollout.{detect, rolling_kcps, rolling_deployments}
use binnacle.Store.{Store, get}

-- The counts that a resource reports: desired and up to date.
abbrev Counts : Type 0
Counts = ℤ × ℤ

abbrev kcp_counts : List KubeadmControlPlane → List Counts
kcp_counts [] = []
kcp_counts (k ∷ ks) = (k.desired_replicas, k.up_to_date_replicas) ∷ kcp_counts ks

abbrev deployment_counts : List MachineDeployment → List Counts
deployment_counts [] = []
deployment_counts (d ∷ ds) = (d.desired_replicas, d.up_to_date_replicas) ∷ deployment_counts ds

-- No count is negative, and no more replicas are up to date than are desired.
abbrev pub IsSane : Counts → Type 0
IsSane c = (neg_part c.0 ≡ 0) × (neg_part c.1 ≡ 0) × (pos_part c.1 ≤ pos_part c.0)

abbrev pub wanted : List Counts → ℕ
wanted [] = 0
wanted (c ∷ cs) = pos_part c.0 + wanted cs

abbrev pub done : List Counts → ℕ
done [] = 0
done (c ∷ cs) = pos_part c.1 + done cs

-- A resource with replicas still to update.
abbrev lags : Counts → Bool
lags c = behind c.0 c.1

done-le : (cs : List Counts) → All IsSane cs → done cs ≤ wanted cs
done-le [] h = omega arith
done-le (c ∷ cs) h = omega (arith, done-le cs h.1)

some_of-lags : (cs : List Counts) → All IsSane cs → some_of lags cs ≡ ltb (done cs) (wanted cs)
some_of-lags [] h = ground arith
some_of-lags (c ∷ cs) h = ground (arith, some_of-lags cs h.1, done-le cs h.1)

add_lem :
    (a : ℕ) (z : ℤ)
    → neg_part z ≡ 0
    → a + pos_part z < 2147483648
    → wrap32 (pos a +ℤ z) ≡ pos (a + pos_part z)
unfolding ◌+ℤ◌
add_lem a (pos n) e h =
    let sum : pos a +ℤ pos n ≡ pos (a + n) = ground arith in ap wrap32 sum ∙ wrap32-eq (a + n) h
add_lem a (negsuc n) e h = absurd (omega arith)

sum_kcps_lem :
    (ks : List KubeadmControlPlane) (a b : ℕ)
    → All IsSane (kcp_counts ks)
    → b ≤ a
    → a + wanted (kcp_counts ks) < 2147483648
    → sum_kcps ks (pos a, pos b)
      ≡ (pos (a + wanted (kcp_counts ks)), pos (b + done (kcp_counts ks)))
unfolding sum_kcps
sum_kcps_lem [] a b h le small = ground arith
sum_kcps_lem (k ∷ ks) a b h le small =
    rw
      (
        add_lem a k.desired_replicas h.0.0 (omega arith),
        add_lem b k.up_to_date_replicas h.0.1 (omega arith),
      )
      (sum_kcps_lem ks (a + pos_part k.desired_replicas) (b + pos_part k.up_to_date_replicas) h.1
          (omega arith) (omega arith)
        ∙ ground arith)

sum_deployments_lem :
    (ds : List MachineDeployment) (a b : ℕ)
    → All IsSane (deployment_counts ds)
    → b ≤ a
    → a + wanted (deployment_counts ds) < 2147483648
    → sum_deployments ds (pos a, pos b)
      ≡ (pos (a + wanted (deployment_counts ds)), pos (b + done (deployment_counts ds)))
unfolding sum_deployments
sum_deployments_lem [] a b h le small = ground arith
sum_deployments_lem (d ∷ ds) a b h le small =
    rw
      (
        add_lem a d.desired_replicas h.0.0 (omega arith),
        add_lem b d.up_to_date_replicas h.0.1 (omega arith),
      )
      (sum_deployments_lem ds (a + pos_part d.desired_replicas) (b + pos_part d.up_to_date_replicas)
          h.1 (omega arith) (omega arith)
        ∙ ground arith)

rolling_kcps-lags :
    (ks : List KubeadmControlPlane)
    → is_empty (rolling_kcps ks) ≡ not (some_of lags (kcp_counts ks))
unfolding rolling_kcps kcp_rolling
rolling_kcps-lags [] = refl
rolling_kcps-lags (k ∷ ks) = ground (arith, rolling_kcps-lags ks)

rolling_deployments-lags :
    (ds : List MachineDeployment)
    → is_empty (rolling_deployments ds) ≡ not (some_of lags (deployment_counts ds))
unfolding rolling_deployments deployment_rolling
rolling_deployments-lags [] = refl
rolling_deployments-lags (d ∷ ds) = ground (arith, rolling_deployments-lags ds)

is_empty-append : (xs ys : List Text) → is_empty (xs ++ ys) ≡ (is_empty xs && is_empty ys)
is_empty-append [] ys = refl
is_empty-append (x ∷ xs) ys = refl

abbrev read_kcps : Store Value → List KubeadmControlPlane
read_kcps s = items_of (get as_kcps s key_mgmt_kcps)

abbrev read_deployments : Store Value → List MachineDeployment
read_deployments s = items_of (get as_machine_deployments s key_mgmt_machine_deployments)

-- What is assumed of the counts that a store holds: they are sane, and the desired replicas of the
-- whole store add up to less than 2^31.
pub record IsSaneStore (s : Store Value) : Type 0 where
  pub kcps : All IsSane (kcp_counts (read_kcps s))
  pub deployments : All IsSane (deployment_counts (read_deployments s))
  pub bounded :
      wanted (kcp_counts (read_kcps s)) + wanted (deployment_counts (read_deployments s))
      < 2147483648

detect_lem :
    (s : Store Value)
    → (detect s []).active
      ≡ some_of lags (kcp_counts (read_kcps s))
        || some_of lags (deployment_counts (read_deployments s))
unfolding detect
detect_lem s =
    rw
      (
        is_empty-sort_stable text_lt
            (rolling_kcps (read_kcps s) ++ rolling_deployments (read_deployments s)),
        is_empty-append (rolling_kcps (read_kcps s)) (rolling_deployments (read_deployments s)),
        rolling_kcps-lags (read_kcps s),
        rolling_deployments-lags (read_deployments s),
      )
      (ground arith)

totals_cell_lem :
    (ks : List KubeadmControlPlane) (ds : List MachineDeployment)
    → All IsSane (kcp_counts ks)
    → All IsSane (deployment_counts ds)
    → wanted (kcp_counts ks) + wanted (deployment_counts ds) < 2147483648
    → ((totals_cell ks ds).status ≡ warn)
      ↔ (some_of lags (kcp_counts ks) || some_of lags (deployment_counts ds) ≡ true)
unfolding totals_cell rollout_cell
totals_cell_lem ks ds h k small =
    rw
      (
        sum_kcps_lem ks 0 0 h (omega arith) (omega arith),
        sum_deployments_lem ds (0 + wanted (kcp_counts ks)) (0 + done (kcp_counts ks)) k
            (omega (arith, done-le (kcp_counts ks) h)) (omega arith),
        some_of-lags (kcp_counts ks) h,
        some_of-lags (deployment_counts ds) k,
      )
      (let one = done-le (kcp_counts ks) h in
        let other = done-le (deployment_counts ds) k in (ground arith, ground arith))

-- In a store whose replica counts are not negative, where no more replicas are up to date than are
-- desired and the desired ones add up to less than 2^31: where the banner has a rollout cell, it is
-- amber exactly when the detector finds a rollout with no target version given.
pub cell_rollout-detect :
    (s : Store Value) (roles : NodeRoles) (c : Cell)
    → IsSaneStore s
    → cell_rollout s roles ≡ some c
    → (c.status ≡ warn) ↔ ((detect s []).active ≡ true)
unfolding cell_rollout
cell_rollout-detect s roles c h e =
    let c_totals : c ≡ totals_cell (read_kcps s) (read_deployments s) = ground arith in
    rw (c_totals, detect_lem s)
      (totals_cell_lem (read_kcps s) (read_deployments s) h.kcps h.deployments h.bounded)
