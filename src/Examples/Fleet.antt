-- ===== src/Examples/Fleet.antt =====
-- The cards of internal/fleet at concrete inputs: a cluster of one node and one pod, and a page of two
-- clusters.
use mathlib.Core.List.{Perm}
use mathlib.Core.List.Perm
use binnacle.Prelude.{
  List, [], ◌∷◌, map, none, some, Text, text, ◌≡◌, refl, ◌⊎◌, inl, inr, true, false, ◌≤◌, arith,
  Distinct, count_if,
}
use binnacle.Prelude.Int.{pos}
use binnacle.Prelude.Sort.{Pairwise}
use binnacle.Model.{Snapshot, Node, Pod, Value, nodes, node_ready}
use binnacle.Model.{key_workload_nodes}
use binnacle.Store.{Store, get, lookup, raw}
use binnacle.Profile.{NodeRoles}
use binnacle.Health.{rank, healthy, worst, worst_from, worse}
use binnacle.Health.Cells.{
  core_cells, cell_rollout, rollout_cell, totals_cell, sum_kcps, sum_deployments, cell_machines,
  cell_hosts, cell_nodes, cell_pods, nodes_cell,
}
use binnacle.Profile.{cordon_is_news}
use binnacle.Rollout.{detect}
use binnacle.Prelude.{text_eq}
use binnacle.Fleet.Views.Management.{read_management, with_clusters, with_kcps, with_deployments}
use binnacle.Fleet.Views.Workloads.{
  read_workload, read_nodes, with_nodes, with_workloads, with_pods,
}
use binnacle.Fleet.Views.Card.{base_view, scope_hosts_cell}
use binnacle.Model.{node_ready}
use binnacle.Fleet.Views.{ClusterView, blank_view}
use binnacle.Fleet.Views.Card.{Tracked, Outside, problem_of, age_of, view, fleet_view}
use binnacle.Prelude.{ap}
use binnacle.Health.Cells.{news}
use binnacle.Fleet.Tables.{unhealthy_pods}
use binnacle.Fleet.Views.Card.Order.{MayPrecede, fleet_view-order, key_of_tracked, key_of}
use binnacle.Fleet.Views.Workloads.Counts.{with_nodes-IsCounted, IsRoleTable}
use binnacle.Fleet.Views.Workloads.Agree.{with_pods_agrees, IsShown}
use binnacle.Fleet.Views.Card.Honest.{view-IsHonest, IsHeard, IsPending}

abbrev pub roles : NodeRoles
roles = record {
  label_keys = text "node/role/*" ∷ [];
  display = [];
  machine_deployment_match = [];
  cordon_expected = [];
}

abbrev node : Node
node = record {
  name = text "n-1";
  status = text "Ready";
  roles = text "infra" ∷ [];
  role = text "infra";
  age = pos 5;
  version = text "v1.33.1";
  internal_ip = [];
  external_ip = [];
  os_image = [];
  kernel_version = [];
  container_runtime = [];
  cordoned = false;
  memory_pressure = false;
  disk_pressure = false;
  pid_pressure = false;
  network_unavail = false;
  allocatable_cpu = pos 0;
  allocatable_memory = pos 0;
  requested_cpu = pos 0;
  requested_memory = pos 0;
  limits_cpu = pos 0;
  limits_memory = pos 0;
  labels = [];
}

abbrev snap : Snapshot Node
snap = record { items = node ∷ []; updated_at = 1; err = none; note = [] }

abbrev store : Store Value
store = record { snapshots = (key_workload_nodes, nodes snap) ∷ []; subs = []; channels = [] }

abbrev pub cluster : Tracked
cluster = record {
  namespace = text "site";
  name = text "tenant-01";
  discover_err = none;
  store = store;
  watch_err = none;
  reachable = some none;
  workload_err = none;
  workload_probe = true;
  clouds_err = none;
  started_at = 0;
}

abbrev pub plugins : Outside
plugins = record { summaries = λ s. []; banner_cells = λ s. []; show_age = λ n. [] }

verdict : (view plugins roles 100 cluster).status ≡ healthy
unfolding view base_view problem_of age_of scope_hosts_cell read_management with_clusters with_kcps
    with_deployments read_workload read_nodes with_nodes with_workloads with_pods core_cells
    cell_rollout rollout_cell totals_cell sum_kcps sum_deployments cell_machines cell_hosts
    cell_nodes cell_pods nodes_cell get raw lookup text_eq worst worst_from worse node_ready
    cordon_is_news detect
verdict = refl

green : rank (view plugins roles 100 cluster).status ≤ 1
green = rw verdict (omega arith)

view-IsHonest_example :
    (problem_of cluster ≡ []) × (IsHeard store ⊎ IsPending store none true (age_of cluster 100))
view-IsHonest_example = view-IsHonest plugins roles 100 cluster green

abbrev other : Tracked
other = record cluster { name = text "tenant-02"; discover_err = some (text "no kubeconfig") }

abbrev page : List (Outside × Tracked)
page = (plugins, cluster) ∷ (plugins, other) ∷ []

abbrev turned : List (Outside × Tracked)
turned = (plugins, other) ∷ (plugins, cluster) ∷ []

page-Distinct : Distinct (map key_of_tracked page)
page-Distinct = (
  elim [ inl e ↦ absurd (ground (arith, ap (λ (k : Text × Text). k.1) e)) | inr i ↦ elim i [ ] ],
  ((λ i. elim i [ ]), tt),
)

fleet_view-order_example :
    (fleet_view roles 100 page ≡ fleet_view roles 100 turned)
    × Pairwise MayPrecede (fleet_view roles 100 page)
    × Perm (map key_of (fleet_view roles 100 page)) (map key_of_tracked page)
fleet_view-order_example =
    fleet_view-order roles 100 page turned (Perm.swap (plugins, other) (plugins, cluster) [])
      page-Distinct

abbrev card : ClusterView
card = blank_view (text "site") (text "tenant-01")

with_nodes-IsCounted_example :
    let w = with_nodes roles snap card in
    (w.nodes.total ≡ 1)
    × (w.nodes.ready ≡ count_if node_ready (node ∷ []))
    × (w.nodes.cordoned ≡ count_if (news roles) (node ∷ []))
    × IsRoleTable roles (node ∷ []) w.nodes_by_role
with_nodes-IsCounted_example = with_nodes-IsCounted roles snap card (refl, refl, refl, refl)

abbrev pod : Pod
pod = record {
  namespace = text "db";
  name = text "galera-0";
  ready_ready = pos 0;
  ready_total = pos 1;
  status = text "CrashLoopBackOff";
  restarts = pos 7;
  age = pos 1000000000;
  ip = [];
  node = text "n-1";
  phase = text "Running";
  is_healthy = false;
}

abbrev pod_snap : Snapshot Pod
pod_snap = record { items = pod ∷ []; updated_at = 1; err = none; note = [] }

with_pods_agrees_example :
    IsShown pod_snap (with_pods (some pod_snap) card) (unhealthy_pods (pod ∷ []) 12)
with_pods_agrees_example = with_pods_agrees pod_snap card 12 refl refl (omega arith)
