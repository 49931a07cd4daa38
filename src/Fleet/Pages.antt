-- ===== src/Fleet/Pages.antt =====
-- internal/fleet/detail.go: the page of one cluster.
--
-- Of a page the subsystems' own panes (subsystems.go) are left out. `ratio` is the percentage in
-- floating point, and a view's time of reading is left out. The names that a cluster owns are a list,
-- for the set of the code.
use binnacle.Prelude.{
  ℕ, zero, suc, ◌+◌, Bool, true, false, not, ◌&&◌, List, [], ◌∷◌, ◌++◌, map, Option, none, some,
  Text, text, if◌then◌else◌, is_empty, is_some, ltb, length, count_if, decimal, or_empty,
}
use binnacle.Prelude.Int.{ℤ}
use binnacle.Model.{
  Snapshot, Machine, BareMetalHost, Node, Pod, Event, Value, as_machines, as_bare_metal_hosts,
  as_nodes, as_pods, as_events, key_mgmt_machines, key_mgmt_bare_metal_hosts, key_mgmt_events,
  key_workload_nodes, key_workload_pods, key_workload_events, node_ready,
}
use binnacle.Store.{Store, get}
use binnacle.Profile.{NodeRoles, CriticalWorkload}
use binnacle.Health.{
  Status, Cell, Pin, loading, healthy, warn, broken, worst, needs_attention, pins,
}
use binnacle.Health.Cells.{usable}
use binnacle.Fleet.Tables.{
  Split, all_rows, NodeRow, new_node_row, split_nodes, split_machines, split_hosts, hosts_for,
  unhealthy_pods,
}
use binnacle.Fleet.Views.{ClusterView, NodeCount, NodePool, blank_view, percent}
use binnacle.Fleet.Views.Card.{Tracked, Outside, view}
use binnacle.Fleet.Events.{EventGroup, group_events, cap_events, owns_name, events_for}
pub mod Management
pub mod Cover

-- What a site's profile and the fleet's options say.
pub record Site : Type 0 where
  pub roles : NodeRoles
  pub critical_workloads : List CriticalWorkload
  pub management_workloads : List CriticalWorkload
  pub management_name : Text
  pub ratio : ℤ → ℤ → ℤ

pub record ClusterDetail : Type 0 where
  pub view : ClusterView
  pub machines : Split Machine
  pub hosts : Split BareMetalHost
  pub hosts_elsewhere : ℕ
  pub node_rows : Split NodeRow
  pub critical_workloads : List Pin
  pub unhealthy_pods : List Pod
  pub pods_truncated : ℕ
  pub events : Split EventGroup
  pub events_truncated : ℕ
  pub events_total : ℕ
  pub events_elsewhere : ℕ

abbrev pub no_rows : {T : Type 0} → Split T
no_rows = record { shown = []; quiet = [] }

abbrev pub bare_detail : ClusterView → ClusterDetail
bare_detail v = record {
  view = v;
  machines = no_rows;
  hosts = no_rows;
  hosts_elsewhere = 0;
  node_rows = no_rows;
  critical_workloads = [];
  unhealthy_pods = [];
  pods_truncated = 0;
  events = no_rows;
  events_truncated = 0;
  events_total = 0;
  events_elsewhere = 0;
}

abbrev pub max_unhealthy_pods : ℕ
max_unhealthy_pods = 60

-- The closure `add` of `ownedNames`.
abbrev pub named : Text → List Text
named name = if is_empty name then [] else name ∷ []

unfoldable pub names_of_pools : List NodePool → List Text
names_of_pools [] = []
names_of_pools (p ∷ ps) = named p.name ++ names_of_pools ps

unfoldable pub names_of_machines : List Machine → List Text
names_of_machines [] = []
names_of_machines (m ∷ ms) = named m.name ++ named m.infra_name ++ names_of_machines ms

unfoldable pub names_of_hosts : List BareMetalHost → List Text
names_of_hosts [] = []
names_of_hosts (h ∷ hs) = named h.name ++ names_of_hosts hs

unfoldable pub owned_names : ClusterDetail → List Text
unfolding names_of_pools names_of_machines names_of_hosts all_rows
owned_names d =
    named d.view.name
    ++ names_of_pools d.view.pools
    ++ names_of_machines (all_rows d.machines)
    ++ names_of_hosts (all_rows d.hosts)

unfoldable pub read_machines : Option (Snapshot Machine) → ClusterDetail → ClusterDetail
unfolding split_machines
read_machines none d = d
read_machines (some snap) d = record d { machines = split_machines snap.items }

unfoldable pub read_hosts : Option (Snapshot BareMetalHost) → ClusterDetail → ClusterDetail
unfolding hosts_for split_hosts all_rows
read_hosts none d = d
read_hosts (some snap) d =
    let (mine, elsewhere) = hosts_for snap.items (all_rows d.machines) in
    record d { hosts = split_hosts mine; hosts_elsewhere = elsewhere }

unfoldable pub rows_of : Site → List Node → Split NodeRow
unfolding new_node_row split_nodes percent
rows_of site nodes = split_nodes (map (λ n. new_node_row (percent site.ratio) n site.roles) nodes)

unfoldable pub read_node_rows : Site → Option (Snapshot Node) → ClusterDetail → ClusterDetail
unfolding rows_of
read_node_rows site none d = d
read_node_rows site (some snap) d = record d { node_rows = rows_of site snap.items }

unfoldable pub read_pods : Site → Option (Snapshot Pod) → ClusterDetail → ClusterDetail
unfolding unhealthy_pods pins
read_pods site none d = d
read_pods site (some snap) d =
    let (shown, truncated) = unhealthy_pods snap.items max_unhealthy_pods in
    record d {
      critical_workloads = pins snap.items site.critical_workloads;
      unhealthy_pods = shown;
      pods_truncated = truncated;
    }

abbrev pub items_of : {T : Type 0} → Option (Snapshot T) → List T
items_of none = []
items_of (some snap) = snap.items

-- What `readEvents` gathers: the workload cluster's events and those of the management cluster that
-- concern the cluster, with the number of the others.
unfoldable pub page_events : Store Value → List Text → List Event × ℕ
unfolding events_for
page_events s owned =
    let (mine, elsewhere) = events_for (items_of (get as_events s key_mgmt_events)) owned in
    (items_of (get as_events s key_workload_events) ++ mine, elsewhere)

unfoldable pub read_events : Store Value → ClusterDetail → ClusterDetail
unfolding owned_names page_events group_events cap_events
read_events s d =
    let (all, elsewhere) = page_events s (owned_names d) in
    let (shown, truncated, total) = cap_events (group_events all) in
    record d {
      events = shown;
      events_truncated = truncated;
      events_total = total;
      events_elsewhere = elsewhere;
    }

-- What `Cluster` has read before the events.
unfoldable pub read_rows : Site → Store Value → ClusterView → ClusterDetail
unfolding read_machines read_hosts read_node_rows read_pods
read_rows site s v = read_pods site (get as_pods s key_workload_pods) (
    read_node_rows site (get as_nodes s key_workload_nodes) (
      read_hosts (get as_bare_metal_hosts s key_mgmt_bare_metal_hosts)
        (read_machines (get as_machines s key_mgmt_machines) (bare_detail v))))

-- `Cluster` on a tracked cluster.
unfoldable pub cluster_detail : Site → ℕ → Outside × Tracked → ClusterDetail
unfolding view read_rows read_events
cluster_detail site now (out, t) =
    let v = view out site.roles now t in
    if not (is_empty v.problem)
    then bare_detail v
    else read_events t.store (read_rows site t.store v)
