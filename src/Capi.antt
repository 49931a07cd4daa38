-- ===== src/Capi.antt =====
-- internal/core/capi/join.go: the join of Machines with the Metal3Machines and bare-metal hosts beneath
-- them, and the hosts that nobody has claimed.
--
-- A Go map that a loop fills is the list of its entries, the latest first, so that a lookup finds the
-- latest. A pointer to an element of a slice is the element, or none for nil.
use binnacle.Prelude.{
  ℕ, Bool, true, false, not, ◌&&◌, ◌||◌, List, [], ◌∷◌, ◌++◌, map, Option, none, some, Text, text,
  text_eq, is_some, if◌then◌else◌, is_empty, keep, some_of,
}
use binnacle.Prelude.Orders.{by_last, by_text, by_number, by_flag}
use binnacle.Prelude.Sort.{sort_stable}
use binnacle.Model.{Machine, Metal3Machine, BareMetalHost}
pub mod Bound
pub mod Rows
pub mod Spare

abbrev pub metal3_machine_kind : Text
metal3_machine_kind = text "Metal3Machine"

abbrev pub control_plane_owner_kind : Text
control_plane_owner_kind = text "KubeadmControlPlane"

abbrev pub control_plane_role : Text
control_plane_role = text "control-plane"

pub record HostRow : Type 0 where
  pub machine : Machine
  pub metal3_machine : Option Metal3Machine
  pub bare_metal_host : Option BareMetalHost
  pub role : Text
  pub control_plane : Bool

unfoldable pub host_name : HostRow → Text
host_name r = elim r.bare_metal_host [ none ↦ [] | some b ↦ b.name ]

unfoldable pub provisioned : HostRow → Bool
provisioned r = elim r.bare_metal_host [
  | none ↦ false
  | some b ↦ text_eq b.state (text "provisioned")
]

abbrev pub rank_in_flight : ℕ
rank_in_flight = 0

abbrev pub rank_attention : ℕ
rank_attention = 1

abbrev pub rank_settled : ℕ
rank_settled = 2

-- The keys of the two maps to `true`.
abbrev machine_in_flight_phases : List Text
machine_in_flight_phases =
    text "Pending" ∷ text "Provisioning" ∷ text "Deleting" ∷ text "Deleted" ∷ []

abbrev host_in_flight_states : List Text
host_in_flight_states =
    text "registering"
    ∷ text "inspecting"
    ∷ text "matchprofile"
    ∷ text "preparing"
    ∷ text "available"
    ∷ text "ready"
    ∷ text "provisioning"
    ∷ text "deprovisioning"
    ∷ text "poweringOffBeforeDelete"
    ∷ text "deleting"
    ∷ []

unfoldable pub machine_moving : Machine → Bool
machine_moving m = some_of (text_eq m.phase) machine_in_flight_phases

unfoldable pub host_state_moving : BareMetalHost → Bool
host_state_moving b = some_of (text_eq b.state) host_in_flight_states

unfoldable pub host_in_flight : HostRow → Bool
host_in_flight r = elim r.bare_metal_host [
  | some b ↦ host_state_moving b
  | none ↦ is_some r.metal3_machine
]

abbrev pub host_failed : HostRow → Bool
host_failed r = elim r.bare_metal_host [ none ↦ false | some b ↦ not (is_empty b.error_message) ]

unfoldable pub activity_rank : HostRow → ℕ
activity_rank r =
    if machine_moving r.machine || host_in_flight r
    then rank_in_flight
    else if text_eq r.machine.phase (text "Failed") || host_failed r
    then rank_attention
    else rank_settled

-- The struct `nsName`.
abbrev pub NsName : Type 0
NsName = Text × Text

abbrev pub same_name : NsName → NsName → Bool
same_name a b = text_eq a.0 b.0 && text_eq a.1 b.1

abbrev pub find : {V : Type 0} → NsName → List (NsName × V) → Option V
find k [] = none
find k ((j, v) ∷ m) = if same_name j k then some v else find k m

-- A loop that fills a map with the elements of a slice under their keys.
unfoldable pub index_by :
    {V : Type 0} → (V → NsName) → List V → List (NsName × V) → List (NsName × V)
index_by key [] acc = acc
index_by key (v ∷ vs) acc = index_by key vs ((key v, v) ∷ acc)

abbrev pub m3m_key : Metal3Machine → NsName
m3m_key m = (m.namespace, m.name)

abbrev pub bmh_key : BareMetalHost → NsName
bmh_key b = (b.namespace, b.name)

unfoldable pub m3m_by_name : List Metal3Machine → List (NsName × Metal3Machine)
m3m_by_name ms = index_by m3m_key ms []

unfoldable pub bmh_by_name : List BareMetalHost → List (NsName × BareMetalHost)
bmh_by_name bs = index_by bmh_key bs []

-- `if ns == "" { ns = other }`
abbrev pub or_namespace : Text → Text → Text
or_namespace ns other = if is_empty ns then other else ns

abbrev pub is_consumed : BareMetalHost → Bool
is_consumed b = text_eq b.consumer_kind metal3_machine_kind && not (is_empty b.consumer_name)

abbrev pub consumer_key : BareMetalHost → NsName
consumer_key b = (or_namespace b.consumer_namespace b.namespace, b.consumer_name)

-- The second map of the loop over the hosts takes those that pass the test.
unfoldable pub bmh_by_consumer : List BareMetalHost → List (NsName × BareMetalHost)
bmh_by_consumer bs = index_by consumer_key (keep is_consumed bs) []

-- The lookup of a machine's Metal3Machine.
unfoldable pub infra_of : List (NsName × Metal3Machine) → Machine → Option Metal3Machine
infra_of m3ms m =
    if text_eq m.infra_kind metal3_machine_kind && not (is_empty m.infra_name)
    then find (m.namespace, m.infra_name) m3ms
    else none

-- The host that the annotation names.
unfoldable pub forward_host : List (NsName × BareMetalHost) → Metal3Machine → Option BareMetalHost
forward_host by_name m3m =
    if not (is_empty m3m.bmh_name)
    then find (or_namespace m3m.bmh_namespace m3m.namespace, m3m.bmh_name) by_name
    else none

abbrev pub or_else : {A : Type 0} → Option A → Option A → Option A
or_else none other = other
or_else (some a) other = some a

-- The host that points back is looked up where the annotation gives none.
unfoldable pub host_of :
    List (NsName × BareMetalHost)
    → List (NsName × BareMetalHost)
    → Metal3Machine
    → Option BareMetalHost
host_of by_name by_consumer m3m =
    or_else (forward_host by_name m3m) (find (m3m.namespace, m3m.name) by_consumer)

-- `roleFn` may be nil.
abbrev pub RoleFunc : Type 0
RoleFunc = Machine → Text

unfoldable pub role_for : Option RoleFunc → Machine → Bool → Text
role_for role_fn m control_plane =
    if control_plane then control_plane_role else elim role_fn [ none ↦ [] | some f ↦ f m ]

-- The body of the loop over the machines.
unfoldable pub row_of :
    List Metal3Machine → List BareMetalHost → Option RoleFunc → Machine → HostRow
row_of m3ms bmhs role_fn m =
    let control_plane = text_eq m.owner_kind control_plane_owner_kind in
    let infra = infra_of (m3m_by_name m3ms) m in
    record {
      machine = m;
      metal3_machine = infra;
      bare_metal_host = elim infra [
        | none ↦ none
        | some m3m ↦ host_of (bmh_by_name bmhs) (bmh_by_consumer bmhs) m3m
      ];
      role = role_for role_fn m control_plane;
      control_plane = control_plane;
    }

-- The comparison of the rows.
abbrev pub row_less : HostRow → HostRow → Bool
row_less = by_number activity_rank (
    by_flag (λ r. r.control_plane)
      (by_text (λ r. r.role) (by_text (λ r. r.machine.namespace) (by_last (λ r. r.machine.name)))))

unfoldable pub join :
    List Machine → List Metal3Machine → List BareMetalHost → Option RoleFunc → List HostRow
join machines m3ms bmhs role_fn = sort_stable row_less (map (row_of m3ms bmhs role_fn) machines)

-- `ns + "/" + name`
abbrev pub qualified : Text → Text → Text
qualified ns name = ns ++ (text "/" ++ name)

-- The two loops that fill `claimed`.
unfoldable pub claims_of_machines : List Metal3Machine → List Text
claims_of_machines ms =
    map (λ m. qualified (or_namespace m.bmh_namespace m.namespace) m.bmh_name)
      (keep (λ m. not (is_empty m.bmh_name)) ms)

unfoldable pub claims_of_hosts : List BareMetalHost → List Text
claims_of_hosts bs =
    map (λ b. qualified b.namespace b.name) (keep (λ b. not (is_empty b.consumer_name)) bs)

abbrev pub host_less : BareMetalHost → BareMetalHost → Bool
host_less = by_text (λ b. b.namespace) (by_last (λ b. b.name))

unfoldable pub unclaimed_hosts : List Metal3Machine → List BareMetalHost → List BareMetalHost
unclaimed_hosts m3ms bmhs =
    let claimed = claims_of_machines m3ms ++ claims_of_hosts bmhs in
    sort_stable host_less
      (keep (λ b. not (some_of (text_eq (qualified b.namespace b.name)) claimed)) bmhs)
