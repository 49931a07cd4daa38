-- ===== src/Examples/Health.antt =====
-- pkg/health at concrete inputs: a strip of cells, a node that is cordoned, a pod that has just started
-- and a control plane halfway through a rollout.
use binnacle.Prelude.{
  List, [], ◌∷◌, none, some, Text, text, ◌≡◌, refl, ◌↔◌, ◌⊎◌, true, false, ◌||◌, arith, some_of,
  count_if, text_eq, decimal,
}
use binnacle.Prelude.Int.{pos, ◌≤ℤ◌, ◌<ℤ◌, ◌+ℤ◌, wrap32, decimal_ℤ}
use binnacle.Model.{
  Node, Pod, KubeadmControlPlane, Value, kcps, as_bare_metal_hosts, as_nodes,
  key_mgmt_bare_metal_hosts, key_workload_nodes, key_mgmt_kcps,
}
use binnacle.Store.{Store, get, lookup, raw}
use binnacle.Profile.{NodeRoles, CriticalWorkload}
use binnacle.Rollout.{detect}
use binnacle.Health.{
  Status, Cell, healthy, warn, broken, worst, status_text, marshal_status, unmarshal_status,
  needs_attention, pod_grace, pin_of, pin_status,
}
use binnacle.Health.Cells.{
  cell_rollout, core_cells, errored, not_ready, usable, cell, totals_cell, sum_kcps,
  sum_deployments, rollout_cell,
}
use binnacle.Health.Laws.{unmarshal-marshal, needs_attention_iff, IsStartingStatus}
use binnacle.Health.Pins.{pin_of-status, member, well, ill}
use binnacle.Health.Verdict.{core_cells-broken, among}
use binnacle.Health.Consistent.{cell_rollout-detect, IsSaneStore}

abbrev strip : List Cell
strip = cell "CAPI" healthy [] ∷ cell "Nodes" broken [] ∷ []

unmarshal-marshal_example :
    ((s : Status) → unmarshal_status (λ t. some t) (marshal_status (λ t. t) s) ≡ some s)
    × ((body t : Text)
        → some body ≡ some t
        → ((s : Status) → t ≡ status_text s → ⊥)
        → unmarshal_status (λ t. some t) body ≡ none)
    × ((body : Text) → some body ≡ none → unmarshal_status (λ t. some t) body ≡ none)
unmarshal-marshal_example = unmarshal-marshal (λ t. t) (λ t. some t) (λ t ascii. refl)

abbrev pod : Pod
pod = record {
  namespace = text "db";
  name = text "galera-0";
  ready_ready = pos 0;
  ready_total = pos 1;
  status = text "ContainerCreating";
  restarts = pos 0;
  age = pos 1000000000;
  ip = [];
  node = text "n-1";
  phase = text "Pending";
  is_healthy = false;
}

needs_attention_iff_example : (needs_attention pod ≡ false) ↔ (
    (false ≡ true)
    ⊎ ((pos 1000000000 <ℤ pod_grace)
        × (pos 0 ≤ℤ pos 0)
        × IsStartingStatus (text "ContainerCreating")))
needs_attention_iff_example = needs_attention_iff pod

abbrev galera : CriticalWorkload
galera = record { kind = text "StatefulSet"; namespace = text "db"; name = text "galera" }

pin_of-status_example :
    let pin = pin_of (pod ∷ []) galera in
    (pin.desired ≡ count_if (member galera) (pod ∷ []))
    × (pin.ready ≡ count_if (well galera) (pod ∷ []))
    × ((pin_status pin ≡ broken) ↔ (some_of (member galera) (pod ∷ []) ≡ false))
    × ((pin_status pin ≡ warn) ↔ (some_of (ill galera) (pod ∷ []) ≡ true))
    × ((pin_status pin ≡ healthy)
        ↔ ((some_of (member galera) (pod ∷ []) ≡ true) × (some_of (ill galera) (pod ∷ []) ≡ false)))
pin_of-status_example = pin_of-status (pod ∷ []) galera

abbrev roles : NodeRoles
roles = record {
  label_keys = text "node/role/*" ∷ [];
  display = [];
  machine_deployment_match = [];
  cordon_expected = [];
}

abbrev node : Node
node = record {
  name = text "n-1";
  status = text "Ready";
  roles = text "infra" ∷ [];
  role = text "infra";
  age = pos 5;
  version = text "v1.33.1";
  internal_ip = [];
  external_ip = [];
  os_image = [];
  kernel_version = [];
  container_runtime = [];
  cordoned = true;
  memory_pressure = false;
  disk_pressure = false;
  pid_pressure = false;
  network_unavail = false;
  allocatable_cpu = pos 0;
  allocatable_memory = pos 0;
  requested_cpu = pos 0;
  requested_memory = pos 0;
  limits_cpu = pos 0;
  limits_memory = pos 0;
  labels = [];
}

abbrev control_plane : KubeadmControlPlane
control_plane = record {
  namespace = text "site";
  name = text "cp";
  cluster_name = text "c";
  version = text "v1.33.1";
  desired_replicas = pos 3;
  replicas = pos 3;
  up_to_date_replicas = pos 1;
  ready_replicas = pos 3;
  available_replicas = pos 3;
  unavailable_replicas = pos 0;
  available = true;
  initialized = true;
  paused = false;
  age = pos 9;
  conditions = [];
}

abbrev published : Value
published = kcps (record { items = control_plane ∷ []; updated_at = 1; err = none; note = [] })

abbrev store : Store Value
store = record { snapshots = (key_mgmt_kcps, published) ∷ []; subs = []; channels = [] }

core_cells-broken_example : (worst (core_cells store roles) ≡ broken) ↔ (
    (among errored (usable (get as_bare_metal_hosts store key_mgmt_bare_metal_hosts))
      || among not_ready (usable (get as_nodes store key_workload_nodes)))
    ≡ true)
core_cells-broken_example = core_cells-broken store roles

store-IsSane : IsSaneStore store
unfolding get raw lookup text_eq
store-IsSane = record {
  kcps = ((refl, refl, omega arith), tt);
  deployments = tt;
  bounded = ground arith;
}

abbrev halfway : Cell
halfway = cell "CAPI" warn (text "1/3")

rollout_shown : cell_rollout store roles ≡ some halfway
unfolding cell_rollout totals_cell sum_kcps sum_deployments rollout_cell get raw lookup text_eq ◌+ℤ◌
    wrap32 decimal_ℤ decimal
rollout_shown = refl

cell_rollout-detect_example : (warn ≡ warn) ↔ ((detect store []).active ≡ true)
cell_rollout-detect_example = cell_rollout-detect store roles halfway store-IsSane rollout_shown
