-- ===== src/Fleet/Views/Card.antt =====
-- internal/fleet/fleet.go: the card of one cluster (`view`) and the page of all of them (`View`).
use binnacle.Prelude.{
  ℕ, ◌-◌, ◌+◌, Bool, true, false, not, List, [], ◌∷◌, ◌++◌, map, Option, none, some, Text, text,
  text_eq, if◌then◌else◌, is_empty, ltb, ◌==◌, or_empty,
}
use binnacle.Prelude.Orders.{by_last, by_text}
use binnacle.Prelude.Sort.{sort_stable}
use binnacle.Model.{
  Value, Machine, BareMetalHost, as_machines, as_bare_metal_hosts, key_mgmt_machines,
  key_mgmt_bare_metal_hosts,
}
use binnacle.Store.{Store, get}
use binnacle.Profile.{NodeRoles}
use binnacle.Rollout.{detect}
use binnacle.Health.{Status, Cell, warn, broken, rank, worse, worst}
use binnacle.Health.Cells.{core_cells, usable, hosts_cell}
use binnacle.Fleet.Tables.{hosts_for}
use binnacle.Fleet.Views.{ClusterView, SummaryBlock, blank_view}
use binnacle.Fleet.Views.Management.{read_management}
use binnacle.Fleet.Views.Workloads.{read_workload}
pub mod Honest
pub mod Order

-- The first cell of the hosts is replaced.
unfoldable pub replace_hosts : Cell → List Cell → List Cell
replace_hosts scoped [] = []
replace_hosts scoped (c ∷ cs) =
    if text_eq c.name (text "Hosts") then scoped ∷ cs else c ∷ replace_hosts scoped cs

unfoldable pub scope_hosts_cell : List Cell → Store Value → List Cell
unfolding replace_hosts hosts_for hosts_cell
scope_hosts_cell cells s = elim (usable (get as_bare_metal_hosts s key_mgmt_bare_metal_hosts)) [
  | none ↦ cells
  | some hosts ↦ elim (usable (get as_machines s key_mgmt_machines)) [
    | none ↦ cells
    | some machines ↦
        let mine = (hosts_for hosts machines).0 in
        if is_empty machines
        then cells
        else if is_empty mine
        then cells
        else replace_hosts (hosts_cell mine) cells
  ]
]

-- What a collector knows beside its store. `reachable` is none until the watcher of the management
-- cluster has reported, then its error, if any; `started_at` is 0 where it is not known.
pub record Tracked : Type 0 where
  pub namespace : Text
  pub name : Text
  pub discover_err : Option Text
  pub store : Store Value
  pub watch_err : Option Text
  pub reachable : Option (Option Text)
  pub workload_err : Option Text
  pub workload_probe : Bool
  pub clouds_err : Option Text
  pub started_at : ℕ

-- What the plugins of a cluster make of its store, and the text of a duration.
pub record Outside : Type 0 where
  pub summaries : Store Value → List SummaryBlock
  pub banner_cells : Store Value → List Cell
  pub show_age : ℕ → Text

-- The first `switch` of `view`.
unfoldable pub problem_of : Tracked → Text
problem_of t = elim t.discover_err [
  | some e ↦ e
  | none ↦ elim t.watch_err [
    | some e ↦ e
    | none ↦ elim t.reachable [ none ↦ [] | some none ↦ [] | some (some e) ↦ e ]
  ]
]

unfoldable pub age_of : Tracked → ℕ → ℕ
age_of t now = if t.started_at == 0 then 0 else now - t.started_at

-- The view before the workload cluster is read.
unfoldable pub base_view : Outside → NodeRoles → Tracked → ClusterView
unfolding scope_hosts_cell read_management
base_view out roles t =
    let cells = scope_hosts_cell (core_cells t.store roles ++ out.banner_cells t.store) t.store in
    record (read_management t.store (record (blank_view t.namespace t.name) {
      summaries = out.summaries t.store;
      cells = cells;
      status = worst cells;
      rollout = detect t.store [];
    })) { clouds_problem = or_empty t.clouds_err }

-- A broken workload side darkens the status to amber at least.
abbrev pub darken : ClusterView × Bool → ClusterView
darken (v, side_broken) = if side_broken then record v { status = worse v.status warn } else v

unfoldable pub view : Outside → NodeRoles → ℕ → Tracked → ClusterView
unfolding problem_of base_view read_workload age_of
view out roles now t =
    if not (is_empty (problem_of t))
    then record (blank_view t.namespace t.name) { problem = problem_of t; status = broken }
    else darken (
        read_workload out.show_age t.store roles t.workload_err t.workload_probe (age_of t now)
          (base_view out roles t))

-- Worst first, then by namespace and name.
unfoldable pub view_less : ClusterView → ClusterView → Bool
view_less a b =
    if not (rank a.status == rank b.status)
    then ltb (rank b.status) (rank a.status)
    else by_text (λ (v : ClusterView). v.namespace) (by_last (λ (v : ClusterView). v.name)) a b

-- `View`; the plugins of each cluster are its own.
unfoldable pub fleet_view : NodeRoles → ℕ → List (Outside × Tracked) → List ClusterView
unfolding view view_less
fleet_view roles now tracked =
    sort_stable view_less (map (λ (out, t). view out roles now t) tracked)
