-- ===== src/Fleet/Storage.antt =====
-- internal/fleet/storage.go: the hosts of a data center grouped into its storage clusters.
--
-- Of a Ceph report this code reads the fsid and the health; `R` is the rest, which it carries along.
-- The maps of groups with the order of their keys are lists of groups in that order.
use binnacle.Prelude.{
  ℕ, zero, suc, ◌+◌, ◌≤◌, Bool, true, false, not, ◌&&◌, ◌||◌, List, [], ◌∷◌, ◌++◌, map, Option,
  none, some, Text, text, text_eq, if◌then◌else◌, is_empty, is_some, or_empty, ltb, leb, length,
  take, has_prefix, keep, ◌==◌,
}
use binnacle.Prelude.Gather.{gather}
use binnacle.Prelude.Orders.{by_last, by_text, by_number}
use binnacle.Prelude.Sort.{sort_stable}
use binnacle.Model.{BareMetalHost, Value, as_bare_metal_hosts, key_mgmt_bare_metal_hosts}
use binnacle.Store.{Store, get, lookup}
use binnacle.Web.Scope.{ClusterRef}
use binnacle.Fleet.Tables.{Split, all_rows, host_rank, host_quiet, split_hosts}
use binnacle.Fleet.Views.{RoleCount}
use binnacle.Fleet.Views.Card.{Tracked}
pub mod Groups
pub mod Roles
pub mod Contents
pub mod Whole

abbrev pub label_role : Text
label_role = text "atmosphere-role"

abbrev pub label_cluster_id : Text
label_cluster_id = text "cluster-id"

abbrev pub ceph_role_prefix : Text
ceph_role_prefix = text "ceph"

-- ceph.Status
pub record CephStatus (R : Type 0) : Type 0 where
  pub fsid : Text
  pub health : Text
  pub rest : R

unfoldable pub health_ok : {R : Type 0} → CephStatus R → Bool
health_ok s = text_eq s.health (text "HEALTH_OK")

pub record CephReport (R : Type 0) : Type 0 where
  pub cluster : ClusterRef
  pub status : CephStatus R

pub record StorageCluster (R : Type 0) : Type 0 where
  pub fsid : Text
  pub hosts : Split BareMetalHost
  pub by_role : List RoleCount
  pub status : Option (CephStatus R)
  pub reported_by : List ClusterRef

pub record Storage (R : Type 0) : Type 0 where
  pub clusters : List (StorageCluster R)
  pub unlabeled : ℕ
  pub known : Bool

-- `h.Labels[key]`
abbrev pub label_of : Text → BareMetalHost → Text
label_of key h = or_empty (lookup key h.labels)

-- The entry of a role in `tallies`.
unfoldable pub tally : BareMetalHost → RoleCount → RoleCount
tally h rc = record rc {
  total = rc.total + 1;
  ready = if leb host_quiet (host_rank h) then rc.ready + 1 else rc.ready;
}

unfoldable pub count_host : List RoleCount → BareMetalHost → List RoleCount
unfolding gather tally
count_host tallies h =
    gather text_eq (λ (rc : RoleCount). rc.role) (label_of label_role h)
      (tally h (record { role = label_of label_role h; label = []; ready = 0; total = 0 }))
      (tally h) tallies

unfoldable pub count_hosts : List RoleCount → List BareMetalHost → List RoleCount
unfolding count_host
count_hosts tallies [] = tallies
count_hosts tallies (h ∷ hs) = count_hosts (count_host tallies h) hs

unfoldable pub storage_roles : List BareMetalHost → List RoleCount
unfolding count_hosts
storage_roles hosts = sort_stable (by_last (λ (rc : RoleCount). rc.role)) (count_hosts [] hosts)

-- What `byFSID` and `byReport` have under an fsid.
pub record Group (R : Type 0) : Type 0 where
  pub fsid : Text
  pub hosts : List BareMetalHost
  pub reports : List (CephReport R)

unfoldable pub is_ceph : BareMetalHost → Bool
is_ceph h = has_prefix (label_of label_role h) ceph_role_prefix

unfoldable pub worst_of : ℕ → List BareMetalHost → ℕ
worst_of worst [] = worst
worst_of worst (h ∷ hs) = worst_of (if ltb (host_rank h) worst then host_rank h else worst) hs

-- The order of the clusters in `Storage`.
abbrev pub tracked_less : Tracked → Tracked → Bool
tracked_less = by_text (λ (t : Tracked). t.namespace) (by_last (λ (t : Tracked). t.name))

-- The hosts of the first cluster that has them without an error.
unfoldable pub first_hosts : List Tracked → Option (List BareMetalHost)
first_hosts [] = none
first_hosts (t ∷ ts) = elim (get as_bare_metal_hosts t.store key_mgmt_bare_metal_hosts) [
  | none ↦ first_hosts ts
  | some snap ↦ elim snap.err [ none ↦ some snap.items | some e ↦ first_hosts ts ]
]

module _ {R : Type 0} where
  abbrev pub no_group : Text → Group R
  no_group fsid = record { fsid = fsid; hosts = []; reports = [] }

  unfoldable pub add_host : List (Group R) → BareMetalHost → List (Group R)
  unfolding gather
  add_host groups h =
      gather text_eq (λ (g : Group R). g.fsid) (label_of label_cluster_id h)
        (record (no_group (label_of label_cluster_id h)) { hosts = h ∷ [] })
        (λ g. record g { hosts = g.hosts ++ h ∷ [] }) groups

  -- The loop over the hosts.
  unfoldable pub sift : List BareMetalHost → List (Group R) → ℕ → List (Group R) × ℕ
  unfolding add_host is_ceph
  sift [] groups unlabeled = (groups, unlabeled)
  sift (h ∷ hs) groups unlabeled =
      if is_empty (label_of label_role h)
      then sift hs groups (if is_empty h.consumer_name then unlabeled + 1 else unlabeled)
      else sift hs (if not (is_ceph h) then groups else add_host groups h) unlabeled

  unfoldable pub add_report : List (Group R) → CephReport R → List (Group R)
  unfolding gather
  add_report groups r =
      if is_empty r.status.fsid
      then groups
      else gather text_eq (λ (g : Group R). g.fsid) r.status.fsid
          (record (no_group r.status.fsid) { reports = r ∷ [] })
          (λ g. record g { reports = g.reports ++ r ∷ [] }) groups

  -- The loop over the reports.
  unfoldable pub add_reports : List (CephReport R) → List (Group R) → List (Group R)
  unfolding add_report
  add_reports [] groups = groups
  add_reports (r ∷ rs) groups = add_reports rs (add_report groups r)

  -- The status of the first report.
  abbrev pub first_status : List (CephReport R) → Option (CephStatus R)
  first_status [] = none
  first_status (r ∷ rs) = some r.status

  unfoldable pub cluster_of : Group R → StorageCluster R
  unfolding split_hosts storage_roles
  cluster_of g = record {
    fsid = g.fsid;
    hosts = split_hosts g.hosts;
    by_role = storage_roles g.hosts;
    status = first_status g.reports;
    reported_by = map (λ (r : CephReport R). r.cluster) g.reports;
  }

  unfoldable pub worst : StorageCluster R → ℕ
  unfolding worst_of
  worst c = worst_of host_quiet (all_rows c.hosts)

  unfoldable pub degraded : StorageCluster R → Bool
  unfolding worst health_ok
  degraded c =
      if ltb (worst c) host_quiet
      then true
      else elim c.status [ none ↦ false | some s ↦ not (health_ok s) ]

  unfoldable pub silent : StorageCluster R → Bool
  silent c = not (is_some c.status)

  unfoldable pub short : StorageCluster R → Text
  short c = if leb (length c.fsid) 8 then c.fsid else take 8 c.fsid

  abbrev pub storage_less : StorageCluster R → StorageCluster R → Bool
  storage_less = by_number worst (by_last (λ (c : StorageCluster R). c.fsid))

  unfoldable pub storage_for : List BareMetalHost → List (CephReport R) → Storage R
  unfolding sift add_reports cluster_of worst
  storage_for hosts reports =
      let (groups, unlabeled) = sift hosts [] 0 in
      record {
        clusters = sort_stable storage_less (map cluster_of (add_reports reports groups));
        unlabeled = unlabeled;
        known = true;
      }

  -- `ceph_state` is the typed read of the plugin's state, and the status in it.
  unfoldable pub reports_of :
      (Store Value → Option (CephStatus R)) → List Tracked → List (CephReport R)
  reports_of ceph_state [] = []
  reports_of ceph_state (t ∷ ts) =
      let rest = reports_of ceph_state ts in
      elim (ceph_state t.store) [
        | none ↦ rest
        | some status ↦
            record { cluster = record { namespace = t.namespace; name = t.name }; status = status }
            ∷ rest
      ]

  abbrev pub no_storage : Storage R
  no_storage = record { clusters = []; unlabeled = 0; known = false }

  unfoldable pub storage : (Store Value → Option (CephStatus R)) → List Tracked → Storage R
  unfolding first_hosts reports_of storage_for
  storage ceph_state tracked =
      let ts = sort_stable tracked_less tracked in
      let reports = reports_of ceph_state ts in
      elim (first_hosts ts) [
        | none ↦
            if is_empty reports
            then no_storage
            else record (storage_for [] reports) { known = false }
        | some hosts ↦ storage_for hosts reports
      ]
