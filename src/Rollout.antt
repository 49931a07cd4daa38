-- ===== src/Rollout.antt =====
-- pkg/rollout/rollout.go: whether a rollout is in progress, and which resources are rolling.
use binnacle.Prelude.{
  is_empty, Bool, true, false, not, List, [], ◌∷◌, ◌++◌, Text, text, text_lt, if◌then◌else◌,
}
use binnacle.Prelude.Sort.{sort_stable}
use binnacle.Model.{
  Value, KubeadmControlPlane, MachineDeployment, as_kcps, as_machine_deployments, key_mgmt_kcps,
  key_mgmt_machine_deployments, kcp_rolling, deployment_rolling,
}
use binnacle.Health.Cells.{items_of}
use binnacle.Store.{Store, get}

pub record State : Type 0 where
  pub active : Bool
  pub asserted : Bool
  pub rolling : List Text
  pub target_version : Text

-- The names that the two loops append.
unfoldable pub rolling_kcps : List KubeadmControlPlane → List Text
rolling_kcps [] = []
rolling_kcps (k ∷ ks) =
    let rest = rolling_kcps ks in
    if kcp_rolling k
    then (k.namespace ++ (text "/" ++ (k.name ++ text " (KubeadmControlPlane)"))) ∷ rest
    else rest

unfoldable pub rolling_deployments : List MachineDeployment → List Text
rolling_deployments [] = []
rolling_deployments (m ∷ ms) =
    let rest = rolling_deployments ms in
    if deployment_rolling m
    then (m.namespace ++ (text "/" ++ (m.name ++ text " (MachineDeployment)"))) ∷ rest
    else rest

unfoldable pub detect : Store Value → Text → State
unfolding rolling_kcps rolling_deployments
detect s target_version =
    let kcps = items_of (get as_kcps s key_mgmt_kcps) in
    let mds = items_of (get as_machine_deployments s key_mgmt_machine_deployments) in
    let rolling = sort_stable text_lt (rolling_kcps kcps ++ rolling_deployments mds) in
    record {
      active = if not (is_empty rolling) then true else not (is_empty target_version);
      asserted = if not (is_empty rolling) then false else not (is_empty target_version);
      rolling = rolling;
      target_version = target_version;
    }

unfoldable pub is_active : Store Value → Text → Bool
unfolding detect
is_active s target_version = (detect s target_version).active
