-- ===== src/Health.antt =====
-- pkg/health: the verdicts that the banner, the fleet page and the terminal share. health.go has the
-- statuses, pods.go the grace period of a starting pod, pinned.go the pinned workloads, cells.go the
-- cells of the summary strip.
--
-- `encode` and `decode` stand for `json.Marshal` and `json.Unmarshal` at texts. A counter of list
-- elements is a natural number; the sums of replicas are `int32` and wrap.
use binnacle.Prelude.{
  is_empty, ℕ, zero, suc, ◌+◌, ◌≡◌, ◌<◌, Bool, true, false, not, ◌&&◌, ◌||◌, List, [], ◌∷◌, ◌++◌,
  Option, none, some, Text, text, text_eq, cut_prefix, decimal, if◌then◌else◌, length, count_if,
  ltb, leb, ◌==◌,
}
use binnacle.Prelude.Int.{ℤ, pos, ◌+ℤ◌, ltb_ℤ, leb_ℤ, wrap32, decimal_ℤ}
use binnacle.Model.{
  Snapshot, Value, KubeadmControlPlane, MachineDeployment, Machine, BareMetalHost, Node, Pod,
  as_kcps, as_machine_deployments, as_machines, as_bare_metal_hosts, as_nodes, as_pods,
  key_mgmt_kcps, key_mgmt_machine_deployments, key_mgmt_machines, key_mgmt_bare_metal_hosts,
  key_workload_nodes, key_workload_pods, node_ready,
}
use binnacle.Profile.{NodeRoles, CriticalWorkload, cordon_is_news, matches}
use binnacle.Store.{Store, get}
pub mod Cells
pub mod Laws
pub mod Pins
pub mod Consistent
pub mod Verdict

pub data Status : Type 0 where
  loading healthy warn broken : Status

-- The values of the constants, which are an `iota`.
abbrev pub rank : Status → ℕ
rank loading = 0
rank healthy = 1
rank warn = 2
rank broken = 3

-- A `Status` has no other value, so the last `return` of `String` is not reached.
unfoldable pub status_text : Status → Text
status_text loading = text "loading"
status_text healthy = text "ok"
status_text warn = text "warn"
status_text broken = text "err"

unfoldable pub worse : Status → Status → Status
worse s other = if ltb (rank s) (rank other) then other else s

pub record Cell : Type 0 where
  pub name : Text
  pub status : Status
  pub detail : Text

unfoldable pub worst_from : Status → List Cell → Status
unfolding worse
worst_from status [] = status
worst_from status (c ∷ cells) = worst_from (worse status c.status) cells

unfoldable pub worst : List Cell → Status
unfolding worst_from
worst cells = worst_from loading cells

unfoldable pub marshal_status : (Text → Text) → Status → Text
unfolding status_text
marshal_status encode s = encode (status_text s)

-- The `switch` of `UnmarshalJSON`; `none` is its error.
unfoldable pub parse_status : Text → Option Status
parse_status str =
    if text_eq str (text "loading")
    then some loading
    else if text_eq str (text "ok")
    then some healthy
    else if text_eq str (text "warn")
    then some warn
    else if text_eq str (text "err")
    then some broken
    else none

unfoldable pub unmarshal_status : (Text → Option Text) → Text → Option Status
unfolding parse_status
unmarshal_status decode input = elim (decode input) [ none ↦ none | some str ↦ parse_status str ]

-- One minute, in nanoseconds.
abbrev pub pod_grace : ℤ
pod_grace = pos 60000000000

-- `rest[0] >= '0' && rest[0] <= '9'`, false for an empty `rest`.
abbrev pub begins_with_digit : Text → Bool
begins_with_digit [] = false
begins_with_digit (c ∷ s) = leb b'0' c && leb c b'9'

-- The part of `starting` below its first guard: it looks at the status alone.
unfoldable pub starting_status : Text → Bool
starting_status status =
    if text_eq status (text "ContainerCreating")
      || text_eq status (text "PodInitializing")
      || text_eq status (text "Pending")
    then true
    else elim (cut_prefix status (text "Init:")) [
      | none ↦ false
      | some rest ↦ begins_with_digit rest
    ]

unfoldable pub starting : Pod → Bool
starting p =
    if leb_ℤ pod_grace p.age || ltb_ℤ (pos 0) p.restarts then false else starting_status p.status

unfoldable pub needs_attention : Pod → Bool
needs_attention p = not p.is_healthy && not (starting p)

pub record Pin : Type 0 where
  pub kind : Text
  pub namespace : Text
  pub name : Text
  pub ready : ℕ
  pub desired : ℕ
  pub absent : Bool

unfoldable pub pin_state : Pin → Text
pin_state p =
    if p.absent
    then text "missing"
    else if ltb p.ready p.desired
    then text "degraded"
    else text "healthy"

unfoldable pub pin_status : Pin → Status
pin_status p = if p.absent then broken else if ltb p.ready p.desired then warn else healthy

-- The inner loop of `Pins`: the counts over the pods that belong to the workload.
unfoldable pub count_pods : CriticalWorkload → List Pod → ℕ → ℕ → ℕ × ℕ
count_pods w [] ready desired = (ready, desired)
count_pods w (p ∷ pods) ready desired =
    let member = matches w p.namespace p.name in
    count_pods w pods (if member then (if p.is_healthy then ready + 1 else ready) else ready)
      (if member then desired + 1 else desired)

unfoldable pub pin_of : List Pod → CriticalWorkload → Pin
unfolding count_pods
pin_of pods w =
    let (ready, desired) = count_pods w pods 0 0 in
    record {
      kind = w.kind;
      namespace = w.namespace;
      name = w.name;
      ready = ready;
      desired = desired;
      absent = desired == 0;
    }

unfoldable pub pins : List Pod → List CriticalWorkload → List Pin
unfolding pin_of
pins pods [] = []
pins pods (w ∷ declared) = pin_of pods w ∷ pins pods declared
