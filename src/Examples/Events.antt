-- ===== src/Examples/Events.antt =====
-- The storage layer and the events of internal/fleet at concrete inputs: two hosts with a report on the
-- Ceph of one of them, and three events in two groups.
use binnacle.Prelude.{List, [], ◌∷◌, some, Text, text, ◌≡◌, true, arith, decimal}
use binnacle.Prelude.Int.{pos, negsuc}
use binnacle.Model.{BareMetalHost, Event}
use binnacle.Fleet.Storage.{CephReport, label_role, label_cluster_id}
use binnacle.Fleet.Events.{group_events, itoa}
use binnacle.Fleet.Events.Whole.{AreGroupsOf, group_events_lem}
use binnacle.Fleet.Events.Digits.{itoa-decimal}

abbrev spare : BareMetalHost
spare = record {
  namespace = text "site";
  name = text "h-2";
  state = text "available";
  operational_status = text "OK";
  powered_on = true;
  online = true;
  consumer_kind = [];
  consumer_namespace = [];
  consumer_name = [];
  error_message = [];
  age = pos 5;
  labels = [];
}

abbrev monitor : BareMetalHost
monitor = record spare {
  name = text "h-1";
  labels = (label_role, text "cephmon") ∷ (label_cluster_id, text "fsid-1") ∷ [];
}

abbrev report : CephReport Text
report = record {
  cluster = record { namespace = text "site"; name = text "tenant-01" };
  status = record { fsid = text "fsid-1"; health = text "HEALTH_OK"; rest = [] };
}

abbrev backoff : Event
backoff = record {
  namespace = text "db";
  type = text "Warning";
  reason = text "BackOff";
  object_kind = text "Pod";
  object_name = text "galera-0";
  message = text "Back-off restarting";
  first_timestamp = 3;
  last_timestamp = 9;
  count = pos 7;
}

abbrev events : List Event
events =
    record backoff { type = text "Normal"; reason = text "Pulled"; count = pos 0 }
    ∷ backoff
    ∷ record backoff { object_name = text "galera-1"; last_timestamp = 11 }
    ∷ []

group_events_lem_example : AreGroupsOf events (group_events events)
group_events_lem_example = group_events_lem events

itoa-decimal_example : (itoa (pos 86400) ≡ some (decimal 86400)) × (itoa (negsuc 86400) ≡ some [])
itoa-decimal_example = itoa-decimal 86400 (omega arith)
