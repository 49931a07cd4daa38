-- ===== src/Fleet/Tables.antt =====
-- internal/fleet/tables.go: the rows worth reading now and the rows that a reader can ask for.
use binnacle.Prelude.{
  ℕ, zero, suc, ◌+◌, ◌-◌, Bool, true, false, not, ◌&&◌, ◌||◌, List, [], ◌∷◌, ◌++◌, Text, text,
  text_eq, text_lt, if◌then◌else◌, length, ltb, leb, is_empty, keep, some_of, take,
}
use binnacle.Prelude.Int.{ℤ, ltb_ℤ, eq_ℤ}
use binnacle.Prelude.Orders.{by_last, by_text, by_number}
use binnacle.Prelude.Sort.{sort_stable}
use binnacle.Model.{Node, Machine, BareMetalHost, Pod, node_ready}
use binnacle.Health.{needs_attention}
use binnacle.Profile.{NodeRoles, display_name, cordon_is_news}
pub mod Folds
pub mod Owners
pub mod Sick

abbrev pub collapse_after : ℕ
collapse_after = 10

abbrev pub node_quiet : ℕ
node_quiet = 3

abbrev pub machine_quiet : ℕ
machine_quiet = 3

abbrev pub host_quiet : ℕ
host_quiet = 2

pub record Split (T : Type 0) : Type 0 where
  pub shown : List T
  pub quiet : List T

module _ {T : Type 0} where
  unfoldable pub total : Split T → ℕ
  total s = length s.shown + length s.quiet

  unfoldable pub all_rows : Split T → List T
  all_rows s = if is_empty s.quiet then s.shown else s.shown ++ s.quiet

  -- The rows before the first whose rank is quiet, and the rows from there on.
  unfoldable pub before_quiet : (T → ℕ) → ℕ → List T → List T
  before_quiet rank quiet_rank [] = []
  before_quiet rank quiet_rank (x ∷ xs) =
      if leb quiet_rank (rank x) then [] else x ∷ before_quiet rank quiet_rank xs

  unfoldable pub from_quiet : (T → ℕ) → ℕ → List T → List T
  from_quiet rank quiet_rank [] = []
  from_quiet rank quiet_rank (x ∷ xs) =
      if leb quiet_rank (rank x) then x ∷ xs else from_quiet rank quiet_rank xs

  unfoldable pub split : (T → ℕ) → (T → T → Bool) → ℕ → List T → Split T
  unfolding before_quiet from_quiet
  split rank less quiet_rank rows =
      let sorted = sort_stable (by_number rank less) rows in
      let tail = from_quiet rank quiet_rank sorted in
      if ltb (length tail) collapse_after
      then record { shown = sorted; quiet = [] }
      else record { shown = before_quiet rank quiet_rank sorted; quiet = tail }

-- detail.go's row of a node.
pub record NodeRow : Type 0 where
  pub node : Node
  pub cpu_percent : ℤ
  pub mem_percent : ℤ
  pub role_label : Text
  pub cordon_news : Bool

unfoldable pub pressure : NodeRow → Bool
pressure n =
    n.node.memory_pressure || n.node.disk_pressure || n.node.pid_pressure || n.node.network_unavail

-- `percent`, the share in floating point, is an argument.
unfoldable pub new_node_row : (ℤ → ℤ → ℤ) → Node → NodeRoles → NodeRow
new_node_row percent n roles = record {
  node = n;
  cpu_percent = percent n.requested_cpu n.allocatable_cpu;
  mem_percent = percent n.requested_memory n.allocatable_memory;
  role_label = display_name roles n.role;
  cordon_news = n.cordoned && cordon_is_news roles n.role (node_ready n);
}

unfoldable pub node_rank : NodeRow → ℕ
unfolding pressure
node_rank n =
    if not (node_ready n.node)
    then 0
    else if pressure n
    then 1
    else if n.node.cordoned
    then 2
    else node_quiet

unfoldable pub machine_rank : Machine → ℕ
machine_rank m =
    if text_eq m.phase (text "Failed") || text_eq m.phase (text "Unknown") || is_empty m.phase
    then 0
    else if text_eq m.phase (text "Deleting")
    then 1
    else if text_eq m.phase (text "Running")
    then machine_quiet
    else 2

unfoldable pub host_rank : BareMetalHost → ℕ
host_rank h =
    if not (is_empty h.error_message)
    then 0
    else if not (is_empty h.operational_status) && not (text_eq h.operational_status (text "OK"))
    then 1
    else host_quiet

abbrev pub node_less : NodeRow → NodeRow → Bool
node_less = by_text (λ r. r.node.role) (by_last (λ r. r.node.name))

unfoldable pub split_nodes : List NodeRow → Split NodeRow
unfolding split node_rank
split_nodes rows = split node_rank node_less node_quiet rows

unfoldable pub split_machines : List Machine → Split Machine
unfolding split machine_rank
split_machines rows = split machine_rank (by_last (λ m. m.name)) machine_quiet rows

unfoldable pub split_hosts : List BareMetalHost → Split BareMetalHost
unfolding split host_rank
split_hosts rows = split host_rank (by_last (λ h. h.name)) host_quiet rows

-- `namespace + "/" + name`
abbrev pub slashed : Text → Text → Text
slashed namespace name = namespace ++ b'/' ∷ name

abbrev pub pod_key : Pod → Text
pod_key p = slashed p.namespace p.name

-- Most restarts first.
abbrev pub pod_less : Pod → Pod → Bool
pod_less a b =
    if not (eq_ℤ a.restarts b.restarts) then ltb_ℤ b.restarts a.restarts else by_last pod_key a b

-- The pods shown, and how many are left out.
unfoldable pub unhealthy_pods : List Pod → ℕ → List Pod × ℕ
unhealthy_pods pods limit =
    let shown = sort_stable pod_less (keep needs_attention pods) in
    if ltb limit (length shown) then (take limit shown, length shown - limit) else (shown, 0)

-- The keys that one round of the first loop of `hostsFor` sets to true.
unfoldable pub keys_of_machine : Machine → List Text
keys_of_machine m =
    if not (is_empty m.infra_name)
    then slashed m.namespace m.infra_name ∷ slashed m.namespace m.name ∷ []
    else slashed m.namespace m.name ∷ []

unfoldable pub owned_by : List Machine → List Text
unfolding keys_of_machine
owned_by [] = []
owned_by (m ∷ ms) = keys_of_machine m ++ owned_by ms

abbrev pub is_mine : List Text → BareMetalHost → Bool
is_mine owned h =
    not (is_empty h.consumer_name)
    && some_of (text_eq (slashed h.consumer_namespace h.consumer_name)) owned

-- The second loop.
unfoldable pub sift_hosts : List Text → List BareMetalHost → List BareMetalHost × ℕ
sift_hosts owned [] = ([], 0)
sift_hosts owned (h ∷ hs) =
    let (mine, elsewhere) = sift_hosts owned hs in
    if is_mine owned h then (h ∷ mine, elsewhere) else (mine, suc elsewhere)

unfoldable pub hosts_for : List BareMetalHost → List Machine → List BareMetalHost × ℕ
unfolding owned_by sift_hosts
hosts_for hosts machines = sift_hosts (owned_by machines) hosts
