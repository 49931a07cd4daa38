-- ===== src/Fleet/Views/Management.antt =====
-- internal/fleet/fleet.go, `readManagement`: what Cluster API reports of a cluster.
use binnacle.Prelude.{
  ℕ, Bool, true, false, not, ◌&&◌, List, [], ◌∷◌, ◌++◌, Option, none, some, Text, text, text_eq,
  if◌then◌else◌, is_empty,
}
use binnacle.Prelude.Int.{ℤ, pos, ◌+ℤ◌, wrap32, eq_ℤ}
use binnacle.Prelude.Orders.{by_last, by_flag}
use binnacle.Prelude.Sort.{sort_stable}
use binnacle.Model.{
  Snapshot, ReplicaBucket, Cluster, KubeadmControlPlane, MachineDeployment, Value, as_clusters,
  as_kcps, as_machine_deployments, key_mgmt_clusters, key_mgmt_kcps, key_mgmt_machine_deployments,
  kcp_rolling, deployment_rolling,
}
use binnacle.Store.{Store, get}
use binnacle.Fleet.Views.{ClusterView, NodePool, no_bucket}
pub mod Kept

-- A cluster of the view's name is copied into it.
unfoldable pub read_cluster : Cluster → ClusterView → ClusterView
read_cluster c v = if not (text_eq c.name v.name) then v else record v {
  version = c.version;
  phase = c.phase;
  paused = c.paused;
  control_plane = c.control_plane;
  workers = c.workers;
}

-- The loop over the clusters of the snapshot: the last one of the view's name counts.
unfoldable pub read_clusters : List Cluster → ClusterView → ClusterView
unfolding read_cluster
read_clusters [] v = v
read_clusters (c ∷ cs) v = read_clusters cs (read_cluster c v)

abbrev pub control_plane_pool : Text
control_plane_pool = text "Control Plane"

unfoldable pub pool_of_kcp : KubeadmControlPlane → NodePool
pool_of_kcp k = record {
  name = k.name;
  role = control_plane_pool;
  ready = k.ready_replicas;
  desired = k.desired_replicas;
  version = k.version;
  paused = k.paused;
  rolling = kcp_rolling k;
}

unfoldable pub pool_of_deployment : MachineDeployment → NodePool
pool_of_deployment m = record {
  name = m.name;
  role = text "Workers";
  ready = m.ready_replicas;
  desired = m.desired_replicas;
  version = m.version;
  paused = m.paused;
  rolling = deployment_rolling m;
}

abbrev pub bucket_of_kcp : KubeadmControlPlane → ReplicaBucket
bucket_of_kcp k = record {
  desired = k.desired_replicas;
  current = pos 0;
  ready = k.ready_replicas;
  available = k.available_replicas;
  up_to_date = k.up_to_date_replicas;
}

-- The loop over the control planes.
unfoldable pub read_kcps : List KubeadmControlPlane → ClusterView → ClusterView
unfolding pool_of_kcp
read_kcps [] v = v
read_kcps (k ∷ ks) v = read_kcps ks (record v {
  pools = v.pools ++ pool_of_kcp k ∷ [];
  version = if is_empty v.version then k.version else v.version;
  control_plane = if eq_ℤ v.control_plane.desired (pos 0) then bucket_of_kcp k else v.control_plane;
})

-- The loop over the machine deployments: their pools and the sums of their replicas.
unfoldable pub read_deployments :
    List MachineDeployment → List NodePool → ReplicaBucket → List NodePool × ReplicaBucket
unfolding pool_of_deployment
read_deployments [] pools workers = (pools, workers)
read_deployments (m ∷ ms) pools workers =
    read_deployments ms (pools ++ pool_of_deployment m ∷ []) (record workers {
      desired = wrap32 (workers.desired +ℤ m.desired_replicas);
      ready = wrap32 (workers.ready +ℤ m.ready_replicas);
      up_to_date = wrap32 (workers.up_to_date +ℤ m.up_to_date_replicas);
    })

abbrev pub is_control_plane : NodePool → Bool
is_control_plane p = text_eq p.role control_plane_pool

-- `if roles differ { return role i is the control plane }`, then by name.
unfoldable pub pool_less : NodePool → NodePool → Bool
pool_less a b =
    if not (text_eq a.role b.role)
    then is_control_plane a
    else by_last (λ (p : NodePool). p.name) a b

unfoldable pub with_clusters : Option (Snapshot Cluster) → ClusterView → ClusterView
unfolding read_clusters
with_clusters none v = v
with_clusters (some snap) v = record (read_clusters snap.items v) { updated_at = snap.updated_at }

unfoldable pub with_kcps : Option (Snapshot KubeadmControlPlane) → ClusterView → ClusterView
unfolding read_kcps
with_kcps none v = v
with_kcps (some snap) v = read_kcps snap.items v

unfoldable pub with_deployments : Option (Snapshot MachineDeployment) → ClusterView → ClusterView
unfolding read_deployments
with_deployments none v = v
with_deployments (some snap) v =
    let (pools, workers) = read_deployments snap.items v.pools no_bucket in
    record v {
      pools = pools;
      workers = if eq_ℤ v.workers.desired (pos 0) then workers else v.workers;
    }

unfoldable pub read_management : Store Value → ClusterView → ClusterView
unfolding with_clusters with_kcps with_deployments pool_less
read_management s v =
    let v' = with_deployments (get as_machine_deployments s key_mgmt_machine_deployments) (
      with_kcps (get as_kcps s key_mgmt_kcps)
        (with_clusters (get as_clusters s key_mgmt_clusters) v)) in
    record v' { pools = sort_stable pool_less v'.pools }
