-- ===== src/Examples/Capi.antt =====
-- internal/core/capi/join.go at concrete inputs: a machine on a host by its Metal3Machine, and a host
-- that is spare.
use binnacle.Prelude.{List, [], ◌∷◌, none, some, text, text_eq, ◌≡◌, refl, true, In, ◌↔◌, ◌⊎◌, map}
use binnacle.Prelude.Int.{pos}
use binnacle.Prelude.Sort.{Pairwise, IsSorted}
use mathlib.Core.List.{Perm}
use binnacle.Model.{Machine, Metal3Machine, BareMetalHost}
use binnacle.Capi.{
  row_of, join, row_less, unclaimed_hosts, host_less, infra_of, m3m_by_name, host_of, bmh_by_name,
  bmh_by_consumer, index_by, forward_host,
}
use binnacle.Capi.Rows.{join-order, MayPrecede}
use binnacle.Capi.Bound.{row_of_sound, row_of_complete, RefersTo, Names, PointsBack}
use binnacle.Capi.Spare.{unclaimed_hosts_iff, Claims, Consumed, host_id}

abbrev machine : Machine
machine = record {
  namespace = text "site";
  name = text "m-1";
  cluster_name = text "c";
  node_name = text "n-1";
  phase = text "Running";
  version = text "v1.33.1";
  provider_id = [];
  owner_kind = text "MachineSet";
  owner_name = text "ms";
  infra_kind = text "Metal3Machine";
  infra_name = text "m3m-1";
  age = pos 10;
  conditions = [];
}

abbrev m3m : Metal3Machine
m3m = record {
  namespace = text "site";
  name = text "m3m-1";
  ready = true;
  provider_id = [];
  bmh_namespace = text "site";
  bmh_name = text "host-1";
  age = pos 10;
  conditions = [];
}

abbrev host : BareMetalHost
host = record {
  namespace = text "site";
  name = text "host-1";
  state = text "provisioned";
  operational_status = text "OK";
  powered_on = true;
  online = true;
  consumer_kind = [];
  consumer_namespace = [];
  consumer_name = [];
  error_message = [];
  age = pos 10;
  labels = [];
}

abbrev spare : BareMetalHost
spare = record host { name = text "host-2" }

abbrev hosts : List BareMetalHost
hosts = host ∷ spare ∷ []

join-order_example :
    Perm
      (join (machine ∷ []) (m3m ∷ []) hosts none)
      (map (row_of (m3m ∷ []) hosts none) (machine ∷ []))
    × IsSorted row_less (join (machine ∷ []) (m3m ∷ []) hosts none)
    × Pairwise MayPrecede (join (machine ∷ []) (m3m ∷ []) hosts none)
join-order_example = join-order (machine ∷ []) (m3m ∷ []) hosts none

shown : (row_of (m3m ∷ []) hosts none machine).bare_metal_host ≡ some host
unfolding row_of infra_of m3m_by_name host_of bmh_by_name bmh_by_consumer text_eq index_by
    forward_host
shown = refl

row_of_sound_example :
    In host hosts
    × ((x : Metal3Machine) × In x (m3m ∷ [])
        × RefersTo machine x
        × (Names x host ⊎ PointsBack host x))
row_of_sound_example = row_of_sound (m3m ∷ []) hosts none machine host shown

row_of_complete_example :
    ((x : Metal3Machine)
      → In x (m3m ∷ [])
      → RefersTo machine x
      → (y : Metal3Machine) × ((row_of (m3m ∷ []) hosts none machine).metal3_machine ≡ some y))
    × ((x : Metal3Machine) (b : BareMetalHost)
        → (row_of (m3m ∷ []) hosts none machine).metal3_machine ≡ some x
        → In b hosts
        → Names x b ⊎ PointsBack b x
        → (c : BareMetalHost) × ((row_of (m3m ∷ []) hosts none machine).bare_metal_host ≡ some c))
row_of_complete_example = row_of_complete (m3m ∷ []) hosts none machine

unclaimed_hosts_iff_example :
    IsSorted host_less (unclaimed_hosts (m3m ∷ []) hosts)
    × ((b : BareMetalHost)
        → In b (unclaimed_hosts (m3m ∷ []) hosts) ↔ (
            In b hosts
            × ((m : Metal3Machine) → In m (m3m ∷ []) → Claims m (host_id b) → ⊥)
            × ((c : BareMetalHost) → In c hosts → Consumed c (host_id b) → ⊥)))
unclaimed_hosts_iff_example = unclaimed_hosts_iff (m3m ∷ []) hosts
