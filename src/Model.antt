-- ===== src/Model.antt =====
-- pkg/model/model.go: the snapshot types that sources publish and panes read.
--
-- A Go `int32`, `int64` or `time.Duration` is an integer, an instant (`time.Time`) the number of
-- nanoseconds since Go's zero time, an `error` a text if there is one, and a map from texts an
-- association list.
use binnacle.Prelude.{
  ℕ, Bool, ◌&&◌, List, ◌++◌, Option, none, some, Text, text, text_eq, if◌then◌else◌,
}
use binnacle.Prelude.Int.{ℤ, pos, ltb_ℤ}

pub record Snapshot (A : Type 0) : Type 0 where
  pub items : List A
  pub updated_at : ℕ
  pub err : Option Text
  pub note : Text

pub record Condition : Type 0 where
  pub type : Text
  pub status : Text
  pub reason : Text
  pub message : Text
  pub last_transition : ℕ

pub record ReplicaBucket : Type 0 where
  pub desired : ℤ
  pub current : ℤ
  pub ready : ℤ
  pub available : ℤ
  pub up_to_date : ℤ

pub record Cluster : Type 0 where
  pub namespace : Text
  pub name : Text
  pub cluster_class : Text
  pub phase : Text
  pub available : Bool
  pub paused : Bool
  pub version : Text
  pub control_plane : ReplicaBucket
  pub workers : ReplicaBucket
  pub age : ℤ
  pub conditions : List Condition

pub record KubeadmControlPlane : Type 0 where
  pub namespace : Text
  pub name : Text
  pub cluster_name : Text
  pub version : Text
  pub desired_replicas : ℤ
  pub replicas : ℤ
  pub up_to_date_replicas : ℤ
  pub ready_replicas : ℤ
  pub available_replicas : ℤ
  pub unavailable_replicas : ℤ
  pub available : Bool
  pub initialized : Bool
  pub paused : Bool
  pub age : ℤ
  pub conditions : List Condition

pub record MachineDeployment : Type 0 where
  pub namespace : Text
  pub name : Text
  pub cluster_name : Text
  pub phase : Text
  pub version : Text
  pub desired_replicas : ℤ
  pub replicas : ℤ
  pub up_to_date_replicas : ℤ
  pub ready_replicas : ℤ
  pub available_replicas : ℤ
  pub available : Bool
  pub paused : Bool
  pub age : ℤ
  pub conditions : List Condition

pub record Machine : Type 0 where
  pub namespace : Text
  pub name : Text
  pub cluster_name : Text
  pub node_name : Text
  pub phase : Text
  pub version : Text
  pub provider_id : Text
  pub owner_kind : Text
  pub owner_name : Text
  pub infra_kind : Text
  pub infra_name : Text
  pub age : ℤ
  pub conditions : List Condition

pub record Metal3Machine : Type 0 where
  pub namespace : Text
  pub name : Text
  pub ready : Bool
  pub provider_id : Text
  pub bmh_namespace : Text
  pub bmh_name : Text
  pub age : ℤ
  pub conditions : List Condition

pub record BareMetalHost : Type 0 where
  pub namespace : Text
  pub name : Text
  pub state : Text
  pub operational_status : Text
  pub powered_on : Bool
  pub online : Bool
  pub consumer_kind : Text
  pub consumer_namespace : Text
  pub consumer_name : Text
  pub error_message : Text
  pub age : ℤ
  pub labels : List (Text × Text)

pub record Node : Type 0 where
  pub name : Text
  pub status : Text
  pub roles : List Text
  pub role : Text
  pub age : ℤ
  pub version : Text
  pub internal_ip : Text
  pub external_ip : Text
  pub os_image : Text
  pub kernel_version : Text
  pub container_runtime : Text
  pub cordoned : Bool
  pub memory_pressure : Bool
  pub disk_pressure : Bool
  pub pid_pressure : Bool
  pub network_unavail : Bool
  pub allocatable_cpu : ℤ
  pub allocatable_memory : ℤ
  pub requested_cpu : ℤ
  pub requested_memory : ℤ
  pub limits_cpu : ℤ
  pub limits_memory : ℤ
  pub labels : List (Text × Text)

pub record Pod : Type 0 where
  pub namespace : Text
  pub name : Text
  pub ready_ready : ℤ
  pub ready_total : ℤ
  pub status : Text
  pub restarts : ℤ
  pub age : ℤ
  pub ip : Text
  pub node : Text
  pub phase : Text
  pub is_healthy : Bool

pub record Metal3Cluster : Type 0 where
  pub namespace : Text
  pub name : Text
  pub cluster_name : Text
  pub ready : Bool
  pub endpoint_host : Text
  pub endpoint_port : ℤ
  pub error_message : Text
  pub age : ℤ
  pub conditions : List Condition

pub record Workload : Type 0 where
  pub namespace : Text
  pub name : Text
  pub kind : Text
  pub ready : ℤ
  pub desired : ℤ
  pub updated : ℤ
  pub manual : Bool
  pub labels : List (Text × Text)

pub record Event : Type 0 where
  pub namespace : Text
  pub type : Text
  pub reason : Text
  pub object_kind : Text
  pub object_name : Text
  pub message : Text
  pub first_timestamp : ℕ
  pub last_timestamp : ℕ
  pub count : ℤ

-- The test that the three `Rolling` methods share.
abbrev pub behind : ℤ → ℤ → Bool
behind desired up_to_date = ltb_ℤ (pos 0) desired && ltb_ℤ up_to_date desired

unfoldable pub bucket_rolling : ReplicaBucket → Bool
bucket_rolling r = behind r.desired r.up_to_date

unfoldable pub kcp_rolling : KubeadmControlPlane → Bool
kcp_rolling k = behind k.desired_replicas k.up_to_date_replicas

unfoldable pub deployment_rolling : MachineDeployment → Bool
deployment_rolling m = behind m.desired_replicas m.up_to_date_replicas

unfoldable pub node_ready : Node → Bool
node_ready n = text_eq n.status (text "Ready")

unfoldable pub display_status : Node → Text
unfolding node_ready
display_status n =
    if n.cordoned
    then (if node_ready n then text "Cordoned" else n.status ++ text ",Cordoned")
    else n.status

-- The `any` of the store: a snapshot at one of the element types that the program publishes, or a
-- value of another type.
pub data Value : Type 0 where
  clusters : Snapshot Cluster → Value
  kcps : Snapshot KubeadmControlPlane → Value
  machine_deployments : Snapshot MachineDeployment → Value
  machines : Snapshot Machine → Value
  metal3_machines : Snapshot Metal3Machine → Value
  bare_metal_hosts : Snapshot BareMetalHost → Value
  nodes : Snapshot Node → Value
  pods : Snapshot Pod → Value
  metal3_clusters : Snapshot Metal3Cluster → Value
  workloads : Snapshot Workload → Value
  events : Snapshot Event → Value
  untyped : Snapshot (Unit {0}) → Value

-- The type assertions `v.(Snapshot[T])` of `store.Get`.
abbrev pub as_kcps : Value → Option (Snapshot KubeadmControlPlane)
as_kcps (kcps s) = some s
as_kcps _ = none

abbrev pub as_machine_deployments : Value → Option (Snapshot MachineDeployment)
as_machine_deployments (machine_deployments s) = some s
as_machine_deployments _ = none

abbrev pub as_machines : Value → Option (Snapshot Machine)
as_machines (machines s) = some s
as_machines _ = none

abbrev pub as_bare_metal_hosts : Value → Option (Snapshot BareMetalHost)
as_bare_metal_hosts (bare_metal_hosts s) = some s
as_bare_metal_hosts _ = none

abbrev pub as_nodes : Value → Option (Snapshot Node)
as_nodes (nodes s) = some s
as_nodes _ = none

abbrev pub as_pods : Value → Option (Snapshot Pod)
as_pods (pods s) = some s
as_pods _ = none

abbrev pub key_mgmt_kcps : Text
key_mgmt_kcps = text "mgmt/kubeadmcontrolplanes"

abbrev pub key_mgmt_machine_deployments : Text
key_mgmt_machine_deployments = text "mgmt/machinedeployments"

abbrev pub key_mgmt_machines : Text
key_mgmt_machines = text "mgmt/machines"

abbrev pub key_mgmt_bare_metal_hosts : Text
key_mgmt_bare_metal_hosts = text "mgmt/baremetalhosts"

abbrev pub key_workload_nodes : Text
key_workload_nodes = text "workload/nodes"

abbrev pub key_workload_pods : Text
key_workload_pods = text "workload/pods"

abbrev pub as_clusters : Value → Option (Snapshot Cluster)
as_clusters (clusters s) = some s
as_clusters _ = none

abbrev pub as_workloads : Value → Option (Snapshot Workload)
as_workloads (workloads s) = some s
as_workloads _ = none

abbrev pub as_events : Value → Option (Snapshot Event)
as_events (events s) = some s
as_events _ = none

abbrev pub key_mgmt_clusters : Text
key_mgmt_clusters = text "mgmt/clusters"

abbrev pub key_mgmt_events : Text
key_mgmt_events = text "mgmt/events"

abbrev pub key_workload_events : Text
key_workload_events = text "workload/events"

abbrev pub key_workload_workloads : Text
key_workload_workloads = text "workload/workloads"
