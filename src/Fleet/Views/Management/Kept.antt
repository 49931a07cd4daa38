-- ===== src/Fleet/Views/Management/Kept.antt =====
-- What `readManagement` (internal/fleet/fleet.go) leaves alone.
use binnacle.Prelude.{ℕ, Bool, List, [], ◌∷◌, Option, none, some, Text, ◌≡◌, refl, ◌∙◌, arith}
use binnacle.Model.{
  Snapshot, Cluster, KubeadmControlPlane, MachineDeployment, Value, as_clusters, as_kcps,
  as_machine_deployments, key_mgmt_clusters, key_mgmt_kcps, key_mgmt_machine_deployments,
}
use binnacle.Store.{Store, get}
use binnacle.Health.{Status}
use binnacle.Fleet.Views.{ClusterView, NodeCount, Capacity, WorkloadCount, RoleCount, PodRef}
use binnacle.Fleet.Views.Management.{
  read_cluster, read_clusters, read_kcps, with_clusters, with_kcps, with_deployments,
  read_management,
}

-- The fields that are not Cluster API's.
pub record Rest : Type 0 where
  pub namespace : Text
  pub name : Text
  pub status : Status
  pub nodes : NodeCount
  pub nodes_known : Bool
  pub capacity : Capacity
  pub workloads : List WorkloadCount
  pub unhealthy_pods : ℕ
  pub nodes_by_role : List RoleCount
  pub top_unhealthy_pods : List PodRef

abbrev pub rest_of : ClusterView → Rest
rest_of v = record {
  namespace = v.namespace;
  name = v.name;
  status = v.status;
  nodes = v.nodes;
  nodes_known = v.nodes_known;
  capacity = v.capacity;
  workloads = v.workloads;
  unhealthy_pods = v.unhealthy_pods;
  nodes_by_role = v.nodes_by_role;
  top_unhealthy_pods = v.top_unhealthy_pods;
}

rest_of-read_cluster : (c : Cluster) (v : ClusterView) → rest_of (read_cluster c v) ≡ rest_of v
unfolding read_cluster
rest_of-read_cluster c v = ground arith

rest_of-read_clusters :
    (cs : List Cluster) (v : ClusterView) → rest_of (read_clusters cs v) ≡ rest_of v
unfolding read_clusters
rest_of-read_clusters [] v = refl
rest_of-read_clusters (c ∷ cs) v =
    rest_of-read_clusters cs (read_cluster c v) ∙ rest_of-read_cluster c v

rest_of-read_kcps :
    (ks : List KubeadmControlPlane) (v : ClusterView) → rest_of (read_kcps ks v) ≡ rest_of v
unfolding read_kcps
rest_of-read_kcps [] v = refl
rest_of-read_kcps (k ∷ ks) v = rw (rest_of-read_kcps ks) refl

rest_of-with_clusters :
    (o : Option (Snapshot Cluster)) (v : ClusterView) → rest_of (with_clusters o v) ≡ rest_of v
unfolding with_clusters
rest_of-with_clusters none v = refl
rest_of-with_clusters (some snap) v = rest_of-read_clusters snap.items v

rest_of-with_kcps :
    (o : Option (Snapshot KubeadmControlPlane)) (v : ClusterView)
    → rest_of (with_kcps o v) ≡ rest_of v
unfolding with_kcps
rest_of-with_kcps none v = refl
rest_of-with_kcps (some snap) v = rest_of-read_kcps snap.items v

rest_of-with_deployments :
    (o : Option (Snapshot MachineDeployment)) (v : ClusterView)
    → rest_of (with_deployments o v) ≡ rest_of v
unfolding with_deployments
rest_of-with_deployments none v = refl
rest_of-with_deployments (some snap) v = refl

pub rest_of-read_management :
    (s : Store Value) (v : ClusterView) → rest_of (read_management s v) ≡ rest_of v
unfolding read_management
rest_of-read_management s v =
    let clusters = get as_clusters s key_mgmt_clusters in
    let kcps = get as_kcps s key_mgmt_kcps in
    rest_of-with_deployments (get as_machine_deployments s key_mgmt_machine_deployments)
      (with_kcps kcps (with_clusters clusters v))
    ∙ rest_of-with_kcps kcps (with_clusters clusters v)
    ∙ rest_of-with_clusters clusters v
