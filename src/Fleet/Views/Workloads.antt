-- ===== src/Fleet/Views/Workloads.antt =====
-- internal/fleet/fleet.go, `readWorkload`: what the workload cluster reports, or why it could not be read.
use binnacle.Prelude.{
  ℕ, zero, suc, ◌+◌, Bool, true, false, not, ◌&&◌, List, [], ◌∷◌, ◌++◌, map, Option, none, some,
  Text, text, text_eq, if◌then◌else◌, is_empty, is_some, ltb, take, keep, count_if,
}
use binnacle.Prelude.Gather.{gather}
use binnacle.Prelude.Int.{ℤ, ◌+ℤ◌, leb_ℤ}
use binnacle.Prelude.Orders.{by_last}
use binnacle.Prelude.Sort.{sort_stable}
use binnacle.Model.{
  Snapshot, Node, Workload, Pod, Value, as_nodes, as_workloads, as_pods, key_workload_nodes,
  key_workload_workloads, key_workload_pods, node_ready,
}
use binnacle.Store.{Store, get}
use binnacle.Profile.{NodeRoles, display_name, cordon_is_news}
use binnacle.Health.{needs_attention}
use binnacle.Health.Cells.{news}
use binnacle.Fleet.Tables.{pod_less}
use binnacle.Fleet.Views.{
  ClusterView, NodeCount, Capacity, RoleCount, WorkloadCount, PodRef, max_card_pods,
}
pub mod Counts
pub mod Agree

-- 45 seconds.
abbrev pub workload_grace : ℕ
workload_grace = 45000000000

-- `role := n.Role`, with a name for none.
abbrev pub role_name : Node → Text
role_name n = if is_empty n.role then text "unlabelled" else n.role

unfoldable pub count_role : Node → RoleCount → RoleCount
count_role n rc = record rc {
  total = rc.total + 1;
  ready = if node_ready n then rc.ready + 1 else rc.ready;
}

-- The entry of the node's role in `byRole`, made if it is missing, and counted.
unfoldable pub count_in : NodeRoles → Node → List RoleCount → List RoleCount
unfolding gather count_role
count_in roles n rcs =
    gather text_eq (λ (rc : RoleCount). rc.role) (role_name n)
      (count_role n (record {
        role = role_name n;
        label = display_name roles (role_name n);
        ready = 0;
        total = 0;
      }))
      (count_role n) rcs

-- What the loop over the nodes gathers.
pub record Tally : Type 0 where
  pub nodes : NodeCount
  pub capacity : Capacity
  pub by_role : List RoleCount

unfoldable pub count_node : NodeRoles → Tally → Node → Tally
unfolding count_in
count_node roles t n = record {
  nodes = record {
    total = t.nodes.total + 1;
    ready = if node_ready n then t.nodes.ready + 1 else t.nodes.ready;
    cordoned = if news roles n then t.nodes.cordoned + 1 else t.nodes.cordoned;
  };
  capacity = record {
    cpu_allocatable = t.capacity.cpu_allocatable +ℤ n.allocatable_cpu;
    cpu_requested = t.capacity.cpu_requested +ℤ n.requested_cpu;
    mem_allocatable = t.capacity.mem_allocatable +ℤ n.allocatable_memory;
    mem_requested = t.capacity.mem_requested +ℤ n.requested_memory;
  };
  by_role = count_in roles n t.by_role;
}

unfoldable pub count_nodes : NodeRoles → Tally → List Node → Tally
unfolding count_node
count_nodes roles t [] = t
count_nodes roles t (n ∷ ns) = count_nodes roles (count_node roles t n) ns

abbrev pub is_full : Workload → Bool
is_full w = leb_ℤ w.desired w.ready

-- The entry of the workload's kind in `byKind`, made if it is missing, and counted.
unfoldable pub count_kind : Workload → List WorkloadCount → List WorkloadCount
count_kind w [] = record { kind = w.kind; ready = if is_full w then 1 else 0; total = 1 } ∷ []
count_kind w (c ∷ cs) =
    if text_eq c.kind w.kind
    then record c { total = c.total + 1; ready = if is_full w then c.ready + 1 else c.ready } ∷ cs
    else c ∷ count_kind w cs

unfoldable pub count_kinds : List WorkloadCount → List Workload → List WorkloadCount
unfolding count_kind
count_kinds cs [] = cs
count_kinds cs (w ∷ ws) = count_kinds (count_kind w cs) ws

abbrev pub pod_ref : Pod → PodRef
pod_ref p = record {
  namespace = p.namespace;
  name = p.name;
  status = p.status;
  restarts = p.restarts;
}

unfoldable pub with_nodes : NodeRoles → Snapshot Node → ClusterView → ClusterView
unfolding count_nodes
with_nodes roles snap v =
    let t =
      count_nodes roles (record { nodes = v.nodes; capacity = v.capacity; by_role = [] })
        snap.items in
    record v {
      nodes_known = true;
      nodes = t.nodes;
      capacity = t.capacity;
      nodes_by_role =
          v.nodes_by_role ++ sort_stable (by_last (λ (r : RoleCount). r.role)) t.by_role;
      updated_at = if ltb v.updated_at snap.updated_at then snap.updated_at else v.updated_at;
    }

unfoldable pub with_workloads : Option (Snapshot Workload) → ClusterView → ClusterView
unfolding count_kinds
with_workloads none v = v
with_workloads (some snap) v = record v {
  workloads =
      sort_stable (by_last (λ (c : WorkloadCount). c.kind))
        (v.workloads ++ count_kinds [] snap.items);
}

unfoldable pub with_pods : Option (Snapshot Pod) → ClusterView → ClusterView
with_pods none v = v
with_pods (some snap) v = record v {
  unhealthy_pods = v.unhealthy_pods + count_if needs_attention snap.items;
  top_unhealthy_pods =
      v.top_unhealthy_pods
      ++ map pod_ref (take max_card_pods (sort_stable pod_less (keep needs_attention snap.items)));
}

abbrev pub quiet_problem : Text
quiet_problem = text "the workload cluster has not reported yet"

abbrev pub empty_problem : Text
empty_problem = text "the workload cluster reported no nodes"

-- The text of a silence of some age; `show` is the printing of a rounded duration.
abbrev pub silence : (ℕ → Text) → ℕ → Text
silence show age = text "nothing has been read from the workload cluster in " ++ show age

-- Where no nodes have been published.
unfoldable pub read_silence : (ℕ → Text) → Option Text → Bool → ℕ → ClusterView → ClusterView × Bool
read_silence show probe_err probed age v = elim (if probed then probe_err else none) [
  | some e ↦ (record v { workload_problem = e }, true)
  | none ↦
      if ltb workload_grace age
      then (record v { workload_problem = silence show age }, true)
      else (record v { workload_problem = quiet_problem }, false)
]

-- Where they have. The flag tells whether the workload side is broken.
unfoldable pub read_nodes :
    NodeRoles
    → Snapshot Node
    → Option (Snapshot Workload)
    → Option (Snapshot Pod)
    → ClusterView
    → ClusterView × Bool
unfolding with_nodes with_workloads with_pods
read_nodes roles snap workloads pods v = elim snap.err [
  | some e ↦ (record v { workload_problem = e }, true)
  | none ↦
      if is_empty snap.items
      then (if not (is_empty snap.note)
          then (record v { workload_problem = snap.note }, false)
          else (record v { workload_problem = empty_problem }, true))
      else (with_pods pods (with_workloads workloads (with_nodes roles snap v)), false)
]

unfoldable pub read_workload :
    (ℕ → Text) → Store Value → NodeRoles → Option Text → Bool → ℕ → ClusterView → ClusterView × Bool
unfolding read_silence read_nodes
read_workload show s roles probe_err probed age v = elim (get as_nodes s key_workload_nodes) [
  | none ↦ read_silence show probe_err probed age v
  | some snap ↦
      read_nodes roles snap (get as_workloads s key_workload_workloads)
        (get as_pods s key_workload_pods) v
]
