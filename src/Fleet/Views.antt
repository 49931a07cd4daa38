-- ===== src/Fleet/Views.antt =====
-- internal/fleet/fleet.go: one cluster's store reduced to its card on the fleet page.
--
-- What the plugins add, their cells and summaries, and the text of a rounded duration are arguments
-- (`Outside`). An error is its message. An instant is a number of nanoseconds, 0 for the zero time; the
-- counters of list elements are natural numbers, and the sums of replicas are `int32` and wrap. The
-- sums of capacities, `int64` in the code, stay far below its bound.
use binnacle.Prelude.{
  ℕ, zero, suc, ◌+◌, ◌-◌, Bool, true, false, not, ◌&&◌, ◌||◌, List, [], ◌∷◌, ◌++◌, map, Option,
  none, some, Text, text, text_eq, text_lt, if◌then◌else◌, ltb, leb, is_empty, length, take, keep,
}
use binnacle.Prelude.Int.{ℤ, pos, ◌+ℤ◌, wrap32, ltb_ℤ, leb_ℤ, eq_ℤ}
use binnacle.Prelude.Orders.{by_last, by_text, by_flag}
use binnacle.Prelude.Sort.{sort_stable}
use binnacle.Model.{
  Snapshot, ReplicaBucket, Cluster, KubeadmControlPlane, MachineDeployment, BareMetalHost, Node,
  Workload, Pod, Value, as_clusters, as_kcps, as_machine_deployments, as_machines,
  as_bare_metal_hosts, as_nodes, as_workloads, as_pods, key_mgmt_clusters, key_mgmt_kcps,
  key_mgmt_machine_deployments, key_mgmt_machines, key_mgmt_bare_metal_hosts, key_workload_nodes,
  key_workload_workloads, key_workload_pods, kcp_rolling, deployment_rolling, node_ready,
}
use binnacle.Store.{Store, get}
use binnacle.Profile.{NodeRoles, display_name, cordon_is_news}
use binnacle.Rollout.{State, detect}
use binnacle.Health.{Status, Cell, loading, warn, broken, rank, worse, worst, needs_attention}
use binnacle.Health.Cells.{core_cells, usable, hosts_cell}
use binnacle.Fleet.Tables.{hosts_for, pod_less}
pub mod Management
pub mod Workloads
pub mod Card

pub record NodeCount : Type 0 where
  pub ready : ℕ
  pub total : ℕ
  pub cordoned : ℕ

pub record NodePool : Type 0 where
  pub name : Text
  pub role : Text
  pub ready : ℤ
  pub desired : ℤ
  pub version : Text
  pub paused : Bool
  pub rolling : Bool

pub record Capacity : Type 0 where
  pub cpu_requested : ℤ
  pub cpu_allocatable : ℤ
  pub mem_requested : ℤ
  pub mem_allocatable : ℤ

-- `Known`
unfoldable pub has_capacity : Capacity → Bool
has_capacity c = ltb_ℤ (pos 0) c.cpu_allocatable || ltb_ℤ (pos 0) c.mem_allocatable

-- `percent`: `ratio` is the quotient in floating point.
unfoldable pub percent : (ℤ → ℤ → ℤ) → ℤ → ℤ → ℤ
percent ratio part whole = if leb_ℤ whole (pos 0) then pos 0 else ratio part whole

pub record WorkloadCount : Type 0 where
  pub kind : Text
  pub ready : ℕ
  pub total : ℕ

abbrev pub max_card_pods : ℕ
max_card_pods = 4

pub record RoleCount : Type 0 where
  pub role : Text
  pub label : Text
  pub ready : ℕ
  pub total : ℕ

unfoldable pub role_degraded : RoleCount → Bool
role_degraded r = ltb r.ready r.total

unfoldable pub workload_degraded : WorkloadCount → Bool
workload_degraded w = ltb w.ready w.total

pub record PodRef : Type 0 where
  pub namespace : Text
  pub name : Text
  pub status : Text
  pub restarts : ℤ

-- detail.go's headline of a subsystem.
pub record SummaryBlock : Type 0 where
  pub title : Text
  pub lines : List Text

pub record ClusterView : Type 0 where
  pub namespace : Text
  pub name : Text
  pub status : Status
  pub cells : List Cell
  pub version : Text
  pub phase : Text
  pub paused : Bool
  pub control_plane : ReplicaBucket
  pub workers : ReplicaBucket
  pub pools : List NodePool
  pub nodes : NodeCount
  pub nodes_known : Bool
  pub capacity : Capacity
  pub workloads : List WorkloadCount
  pub unhealthy_pods : ℕ
  pub nodes_by_role : List RoleCount
  pub top_unhealthy_pods : List PodRef
  pub summaries : List SummaryBlock
  pub workload_problem : Text
  pub clouds_problem : Text
  pub rollout : State
  pub problem : Text
  pub updated_at : ℕ

abbrev pub no_bucket : ReplicaBucket
no_bucket = record {
  desired = pos 0;
  current = pos 0;
  ready = pos 0;
  available = pos 0;
  up_to_date = pos 0;
}

-- `ClusterView{Namespace: …, Name: …}`: every other field is zero.
abbrev pub blank_view : Text → Text → ClusterView
blank_view namespace name = record {
  namespace = namespace;
  name = name;
  status = loading;
  cells = [];
  version = [];
  phase = [];
  paused = false;
  control_plane = no_bucket;
  workers = no_bucket;
  pools = [];
  nodes = record { ready = 0; total = 0; cordoned = 0 };
  nodes_known = false;
  capacity = record {
    cpu_requested = pos 0;
    cpu_allocatable = pos 0;
    mem_requested = pos 0;
    mem_allocatable = pos 0;
  };
  workloads = [];
  unhealthy_pods = 0;
  nodes_by_role = [];
  top_unhealthy_pods = [];
  summaries = [];
  workload_problem = [];
  clouds_problem = [];
  rollout = record { active = false; asserted = false; rolling = []; target_version = [] };
  problem = [];
  updated_at = 0;
}
