-- ===== src/Examples/Pages.antt =====
-- The pages of internal/fleet at a concrete input: a cluster whose store has one event of the Cluster API
-- namespace, on an object that it owns.
use binnacle.Prelude.{
  List, [], ◌∷◌, true, none, some, text, text_eq, ◌≡◌, ◌⊎◌, inl, inr, refl, In, ap, subst, sym, ◌∙◌,
}
use binnacle.Prelude.Int.{pos}
use binnacle.Model.{Snapshot, Event, events, as_events, key_mgmt_events}
use binnacle.Store.{get, raw, lookup}
use binnacle.Fleet.Views.Card.{Tracked, Outside, view, base_view, problem_of, age_of}
use binnacle.Fleet.Views.Management.{read_management, with_clusters, with_kcps, with_deployments}
use binnacle.Fleet.Views.Workloads.{read_workload, read_silence}
use binnacle.Fleet.Pages.{Site, items_of}
use binnacle.Fleet.Pages.Management.{
  MgmtCollector, capi_events, management, management_detail, with_node_count, with_controllers,
}
use binnacle.Fleet.Pages.Cover.{IsOnPage, IsTold, management_events_cover}
use binnacle.Examples.Fleet.{roles, cluster, plugins}

abbrev paused : Event
paused = record {
  namespace = text "site";
  type = text "Warning";
  reason = text "Paused";
  object_kind = text "KubeadmControlPlane";
  object_name = text "tenant-01-kcp";
  message = text "paused";
  first_timestamp = 3;
  last_timestamp = 9;
  count = pos 1;
}

abbrev snap : Snapshot Event
snap = record { items = paused ∷ []; updated_at = 1; err = none; note = [] }

abbrev held : Tracked
held = record cluster {
  store = record { snapshots = (key_mgmt_events, events snap) ∷ []; subs = []; channels = [] };
}

abbrev site : Site
site = record {
  roles = roles;
  critical_workloads = [];
  management_workloads = [];
  management_name = [];
  ratio = λ part whole. pos 0;
}

abbrev tracked : List (Outside × Tracked)
tracked = (plugins, held) ∷ []

held_reads : (view plugins roles 100 held).problem ≡ []
unfolding view base_view problem_of read_management with_clusters with_kcps with_deployments
    read_workload read_silence get raw lookup text_eq age_of
held_reads = refl

readable : (t : Outside × Tracked) → In t tracked → (view t.0 site.roles 100 t.1).problem ≡ []
readable t (inl e) = ap (λ (t : Outside × Tracked). (view t.0 roles 100 t.1).problem) e ∙ held_reads
readable t (inr i) = elim i [ ]

held_events :
    (items_of (get as_events held.store key_mgmt_events) ≡ paused ∷ [])
    × (capi_events tracked ≡ paused ∷ [])
unfolding get raw lookup text_eq capi_events
held_events = (refl, refl)

shared :
    (t : Outside × Tracked)
    → In t tracked
    → items_of (get as_events t.1.store key_mgmt_events) ≡ capi_events tracked
shared t (inl e) =
    ap (λ (t : Outside × Tracked). items_of (get as_events t.1.store key_mgmt_events)) e
    ∙ held_events.0
    ∙ sym held_events.1
shared t (inr i) = elim i [ ]

abbrev collector : MgmtCollector
collector = record {
  store = record { snapshots = []; subs = []; channels = [] };
  reachable = some none;
  kube_version = text "v1";
  watch_err = none;
}

reached : (management site (some collector)).reachable ≡ true
unfolding management with_node_count with_controllers get raw lookup
reached = refl

management_events_cover_example :
    ((t : Outside × Tracked) × In t tracked × IsOnPage site 100 paused t)
    ⊎ IsTold paused
        (management_detail site 100 (some collector) tracked).events
        (management_detail site 100 (some collector) tracked).events_truncated
management_events_cover_example =
    management_events_cover site 100 collector tracked paused reached readable shared
      (subst (In paused) (sym held_events.1) (inl refl))
