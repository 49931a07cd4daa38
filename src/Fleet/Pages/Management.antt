-- ===== src/Fleet/Pages/Management.antt =====
-- internal/fleet/management.go and management_detail.go: the section and the page of the management
-- cluster. A view's time of reading is left out.
use binnacle.Prelude.{
  ℕ, Bool, true, false, not, List, [], ◌∷◌, ◌++◌, Option, none, some, Text, text, if◌then◌else◌,
  ltb, length, count_if, decimal, or_empty,
}
use binnacle.Model.{
  Node, Pod, Event, Value, as_nodes, as_pods, as_events, key_mgmt_events, key_workload_nodes,
  key_workload_pods, key_workload_events, node_ready,
}
use binnacle.Store.{Store, get}
use binnacle.Health.{
  Status, Cell, Pin, loading, healthy, warn, broken, worst, needs_attention, pins,
}
use binnacle.Health.Cells.{usable}
use binnacle.Fleet.Tables.{Split, NodeRow, unhealthy_pods}
use binnacle.Fleet.Views.{NodeCount}
use binnacle.Fleet.Views.Card.{Tracked, Outside}
use binnacle.Fleet.Events.{EventGroup, group_events, cap_events, owns_name}
use binnacle.Fleet.Pages.{Site, no_rows, max_unhealthy_pods, rows_of, owned_names, cluster_detail}

-- `mgmtCollector`; `reachable` is none until the probe has answered, then its error, if any.
pub record MgmtCollector : Type 0 where
  pub store : Store Value
  pub reachable : Option (Option Text)
  pub kube_version : Text
  pub watch_err : Option Text

pub record ControllerHealth : Type 0 where
  pub critical : List Pin
  pub unhealthy : ℕ

pub record ManagementView : Type 0 where
  pub name : Text
  pub reachable : Bool
  pub err_text : Text
  pub version : Text
  pub nodes : NodeCount
  pub nodes_known : Bool
  pub controller_health : Option ControllerHealth
  pub unhealthy_pods : List Pod
  pub pods_truncated : ℕ
  pub cells : List Cell
  pub status : Status

abbrev pub max_management_pods : ℕ
max_management_pods = 12

unfoldable pub management_nodes_cell : Option (List Node) → Cell
management_nodes_cell none = record { name = text "Nodes"; status = loading; detail = [] }
management_nodes_cell (some nodes) =
    let ready = count_if node_ready nodes in
    record {
      name = text "Nodes";
      status = if ltb ready (length nodes) then broken else healthy;
      detail = decimal ready ++ text "/" ++ decimal (length nodes);
    }

unfoldable pub management_pods_cell : Option (List Pod) → Cell
management_pods_cell none = record { name = text "Pods"; status = loading; detail = [] }
management_pods_cell (some pods) =
    let unhealthy = count_if needs_attention pods in
    record {
      name = text "Pods";
      status = if ltb 0 unhealthy then warn else healthy;
      detail = decimal unhealthy ++ text " unhealthy";
    }

-- `managementCells`; none for what could not be read.
unfoldable pub management_cells : Option (List Node) → Option (List Pod) → List Cell
unfolding management_nodes_cell management_pods_cell
management_cells nodes pods = management_nodes_cell nodes ∷ management_pods_cell pods ∷ []

unfoldable pub build_controller_health : Site → List Pod → ControllerHealth
unfolding pins
build_controller_health site pods = record {
  critical = pins pods site.management_workloads;
  unhealthy = count_if needs_attention pods;
}

unfoldable pub count_mgmt_nodes : List Node → NodeCount
count_mgmt_nodes nodes = record {
  ready = count_if node_ready nodes;
  total = length nodes;
  cordoned = 0;
}

abbrev pub unread : Site → Text → Text → Bool → Status → ManagementView
unread site e version reachable status = record {
  name = site.management_name;
  reachable = reachable;
  err_text = e;
  version = version;
  nodes = record { ready = 0; total = 0; cordoned = 0 };
  nodes_known = false;
  controller_health = none;
  unhealthy_pods = [];
  pods_truncated = 0;
  cells = [];
  status = status;
}

abbrev pub is_reached : Option (Option Text) → Bool
is_reached (some none) = true
is_reached _ = false

-- The server's error, or else the watcher's.
abbrev pub error_text : MgmtCollector → Text
error_text mc = elim mc.reachable [
  | none ↦ or_empty mc.watch_err
  | some none ↦ or_empty mc.watch_err
  | some (some e) ↦ e
]

unfoldable pub with_node_count : Option (List Node) → ManagementView → ManagementView
unfolding count_mgmt_nodes
with_node_count none v = v
with_node_count (some nodes) v = record v { nodes = count_mgmt_nodes nodes; nodes_known = true }

unfoldable pub with_controllers : Site → Option (List Pod) → ManagementView → ManagementView
unfolding build_controller_health unhealthy_pods
with_controllers site none v = v
with_controllers site (some pods) v =
    let (shown, truncated) = unhealthy_pods pods max_management_pods in
    record v {
      controller_health = some (build_controller_health site pods);
      unhealthy_pods = shown;
      pods_truncated = truncated;
    }

unfoldable pub management : Site → Option MgmtCollector → ManagementView
unfolding with_node_count with_controllers management_cells worst
management site none = unread site (text "not started") [] false loading
management site (some mc) =
    let start = unread site (error_text mc) mc.kube_version (is_reached mc.reachable) loading in
    if not (is_reached mc.reachable)
    then record start { status = broken }
    else let nodes = usable (get as_nodes mc.store key_workload_nodes) in
      let pods = usable (get as_pods mc.store key_workload_pods) in
      let cells = management_cells nodes pods in
      record (with_controllers site pods (with_node_count nodes start)) {
        cells = cells;
        status = worst cells;
      }

-- The events of the first cluster whose snapshot of the management cluster's events has no error.
unfoldable pub capi_events : List (Outside × Tracked) → List Event
capi_events [] = []
capi_events ((out, t) ∷ ts) = elim (usable (get as_events t.store key_mgmt_events)) [
  | none ↦ capi_events ts
  | some items ↦ items
]

unfoldable pub owned_by_all : Site → ℕ → List (Outside × Tracked) → List Text
unfolding cluster_detail owned_names
owned_by_all site now [] = []
owned_by_all site now (t ∷ ts) = owned_names (cluster_detail site now t) ++ owned_by_all site now ts

unfoldable pub unclaimed : List Text → List Event → List Event
unfolding owns_name
unclaimed owned [] = []
unclaimed owned (e ∷ es) =
    let rest = unclaimed owned es in if not (owns_name owned e.object_name) then e ∷ rest else rest

-- The management cluster's own events.
abbrev pub own_events : Option MgmtCollector → List Event
own_events none = []
own_events (some mc) = elim (usable (get as_events mc.store key_workload_events)) [
  | none ↦ []
  | some items ↦ items
]

unfoldable pub management_events :
    Site → ℕ → Option MgmtCollector → List (Outside × Tracked) → List Event
unfolding capi_events owned_by_all unclaimed
management_events site now mgmt tracked =
    own_events mgmt ++ unclaimed (owned_by_all site now tracked) (capi_events tracked)

pub record ManagementDetail : Type 0 where
  pub view : ManagementView
  pub node_rows : Split NodeRow
  pub events : Split EventGroup
  pub events_truncated : ℕ
  pub events_total : ℕ

unfoldable pub management_detail :
    Site → ℕ → Option MgmtCollector → List (Outside × Tracked) → ManagementDetail
unfolding management rows_of unhealthy_pods management_events group_events cap_events
management_detail site now mgmt tracked =
    let v = management site mgmt in
    let bare : ManagementDetail = record {
      view = v;
      node_rows = no_rows;
      events = no_rows;
      events_truncated = 0;
      events_total = 0;
    } in
    elim mgmt [
      | none ↦ bare
      | some mc ↦
          if not v.reachable
          then bare
          else let (shown, truncated, total) =
              cap_events (group_events (management_events site now (some mc) tracked)) in
            let nodes = usable (get as_nodes mc.store key_workload_nodes) in
            let pods = usable (get as_pods mc.store key_workload_pods) in
            record {
              view = elim pods [
                | none ↦ v
                | some ps ↦
                    let (worst_pods, left) = unhealthy_pods ps max_unhealthy_pods in
                    record v { unhealthy_pods = worst_pods; pods_truncated = left }
              ];
              node_rows = elim nodes [ none ↦ no_rows | some ns ↦ rows_of site ns ];
              events = shown;
              events_truncated = truncated;
              events_total = total;
            }
    ]
