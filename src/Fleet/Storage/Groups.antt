-- ===== src/Fleet/Storage/Groups.antt =====
-- Which groups the loops over the hosts and the reports make (internal/fleet/storage.go, `StorageFor`).
use mathlib.Core.List.{append-nil, append_assoc}
use binnacle.Prelude.{
  cut_prefix, has_prefix, text, ◌∙◌, ℕ, Bool, true, false, not, ◌&&◌, ◌||◌, List, [], ◌∷◌, ◌++◌,
  Text, text_eq, text_eq_iff, ◌≡◌, inl, inr, refl, arith, sym, subst, is_empty, is_empty_sound,
  some_of, some_of-append, keep, keep-append, keep_none, Bool-cases,
}
use binnacle.Prelude.Gather.{IsGathered, IsGathered-ext, gather-IsGathered}
use binnacle.Model.{BareMetalHost}
use binnacle.Fleet.Storage.{
  label_of, label_role, label_cluster_id, is_ceph, CephReport, Group, no_group, add_host, sift,
  add_report, add_reports,
}

-- The host's role is one of Ceph's.
abbrev has_ceph_role : BareMetalHost → Bool
has_ceph_role h = has_prefix (label_of (text "atmosphere-role") h) (text "ceph")

is_ceph_lem : (h : BareMetalHost) → is_ceph h ≡ has_ceph_role h
unfolding is_ceph
is_ceph_lem h = refl

-- The host is one of the Ceph hosts with this fsid.
abbrev pub is_ceph_of : Text → BareMetalHost → Bool
is_ceph_of fsid h = has_ceph_role h && text_eq fsid (label_of (text "cluster-id") h)

-- Hardware without a role that nothing has claimed.
abbrev pub is_unlabeled : BareMetalHost → Bool
is_unlabeled h = is_empty (label_of (text "atmosphere-role") h) && is_empty h.consumer_name

is_ceph-role :
    (h : BareMetalHost) → is_empty (label_of label_role h) ≡ true → has_ceph_role h ≡ false
unfolding cut_prefix
is_ceph-role h e = rw (is_empty_sound (label_of label_role h) e) refl

module _ {R : Type 0} where
  -- The report has an fsid, and it is this one.
  abbrev pub is_about : Text → CephReport R → Bool
  is_about fsid r = not (is_empty r.status.fsid) && text_eq fsid r.status.fsid

  abbrev pub group_of : List BareMetalHost → List (CephReport R) → Text → Group R
  group_of hosts reports fsid = record {
    fsid = fsid;
    hosts = keep (is_ceph_of fsid) hosts;
    reports = keep (is_about fsid) reports;
  }

  abbrev pub is_used : List BareMetalHost → List (CephReport R) → Text → Bool
  is_used hosts reports fsid = some_of (is_ceph_of fsid) hosts || some_of (is_about fsid) reports

  -- One group for each fsid of a Ceph host or a report, with all its hosts and reports.
  abbrev pub AreGroups : List BareMetalHost → List (CephReport R) → List (Group R) → Type 0
  AreGroups hosts reports = IsGathered (group_of hosts reports) (is_used hosts reports)

  add_host-AreGroups :
      (seen : List BareMetalHost) (h : BareMetalHost) (groups : List (Group R))
      → has_ceph_role h ≡ true
      → AreGroups seen [] groups
      → AreGroups (seen ++ h ∷ []) [] (add_host groups h)
  unfolding add_host
  add_host-AreGroups seen h groups e =
      let k = label_of label_cluster_id h in
      gather-IsGathered text_eq text_eq_iff (λ (g : Group R). g.fsid) (group_of seen [])
        (group_of (seen ++ h ∷ []) []) (λ r. refl) k (record (no_group k) { hosts = h ∷ [] })
        (λ g. record g { hosts = g.hosts ++ h ∷ [] })
        (λ r ne. ground (
          arith,
          e,
          ne,
          text_eq_iff r k,
          keep-append (is_ceph_of r) seen (h ∷ []),
          append-nil (keep (is_ceph_of r) seen),
        ))
        (is_used seen []) (is_used (seen ++ h ∷ []) [])
        (λ r. ground (arith, e, some_of-append (is_ceph_of r) seen (h ∷ [])))
        (λ u. ground (arith, e, text_eq_iff k k, keep-append (is_ceph_of k) seen (h ∷ [])))
        (λ u. ground (
          arith,
          u,
          e,
          text_eq_iff k k,
          keep_none (is_ceph_of k) seen,
          keep-append (is_ceph_of k) seen (h ∷ []),
        ))
        groups

  other-AreGroups :
      (seen : List BareMetalHost) (h : BareMetalHost) (groups : List (Group R))
      → has_ceph_role h ≡ false
      → AreGroups seen [] groups
      → AreGroups (seen ++ h ∷ []) [] groups
  other-AreGroups seen h groups e =
      IsGathered-ext (group_of seen []) (group_of (seen ++ h ∷ []) []) (is_used seen [])
        (is_used (seen ++ h ∷ []) [])
        (λ r. ground (
          arith,
          e,
          keep-append (is_ceph_of r) seen (h ∷ []),
          append-nil (keep (is_ceph_of r) seen),
        ))
        (λ r. ground (arith, e, some_of-append (is_ceph_of r) seen (h ∷ []))) groups

  pub sift-AreGroups :
      (hs : List BareMetalHost) (seen : List BareMetalHost) (groups : List (Group R)) (n : ℕ)
      → AreGroups seen [] groups
      → AreGroups (seen ++ hs) [] (sift hs groups n).0
  unfolding sift
  sift-AreGroups [] seen groups n a = subst (λ l. AreGroups l [] groups) (sym (append-nil seen)) a
  sift-AreGroups (h ∷ hs) seen groups n a =
      subst (λ l. AreGroups l [] (sift (h ∷ hs) groups n).0) (append_assoc seen (h ∷ []) hs)
        (elim (Bool-cases (is_empty (label_of label_role h))) [
          | inl e ↦ rw e (
              sift-AreGroups hs (seen ++ h ∷ []) groups _
                (other-AreGroups seen h groups (is_ceph-role h e) a))
          | inr e ↦ elim (Bool-cases (is_ceph h)) [
            | inl q ↦
                rw (e, q)
                  (sift-AreGroups hs (seen ++ h ∷ []) (add_host groups h) n
                    (add_host-AreGroups seen h groups (sym (is_ceph_lem h) ∙ q) a))
            | inr q ↦
                rw (e, q)
                  (sift-AreGroups hs (seen ++ h ∷ []) groups n
                    (other-AreGroups seen h groups (sym (is_ceph_lem h) ∙ q) a))
          ]
        ])

  add_report-AreGroups :
      (hosts : List BareMetalHost) (seen : List (CephReport R)) (r : CephReport R)
      (groups : List (Group R))
      → AreGroups hosts seen groups
      → AreGroups hosts (seen ++ r ∷ []) (add_report groups r)
  unfolding add_report
  add_report-AreGroups hosts seen r groups a = elim (Bool-cases (is_empty r.status.fsid)) [
    | inl e ↦ rw e (
        IsGathered-ext (group_of hosts seen) (group_of hosts (seen ++ r ∷ [])) (is_used hosts seen)
          (is_used hosts (seen ++ r ∷ []))
          (λ f.
            ground (
              arith,
              e,
              keep-append (is_about f) seen (r ∷ []),
              append-nil (keep (is_about f) seen),
            ))
          (λ f. ground (arith, e, some_of-append (is_about f) seen (r ∷ []))) groups a)
    | inr e ↦
        let k = r.status.fsid in
        rw e (
          gather-IsGathered text_eq text_eq_iff (λ (g : Group R). g.fsid) (group_of hosts seen)
            (group_of hosts (seen ++ r ∷ [])) (λ f. refl) k
            (record (no_group k) { reports = r ∷ [] })
            (λ g. record g { reports = g.reports ++ r ∷ [] })
            (λ f ne. ground (
              arith,
              e,
              ne,
              text_eq_iff f k,
              keep-append (is_about f) seen (r ∷ []),
              append-nil (keep (is_about f) seen),
            ))
            (is_used hosts seen) (is_used hosts (seen ++ r ∷ []))
            (λ f. ground (arith, e, some_of-append (is_about f) seen (r ∷ [])))
            (λ u. ground (arith, e, text_eq_iff k k, keep-append (is_about k) seen (r ∷ [])))
            (λ u. ground (
              arith,
              u,
              e,
              text_eq_iff k k,
              keep_none (is_ceph_of k) hosts,
              keep_none (is_about k) seen,
              keep-append (is_about k) seen (r ∷ []),
            ))
            groups a)
  ]

  pub add_reports-AreGroups :
      (rs : List (CephReport R)) (hosts : List BareMetalHost) (seen : List (CephReport R))
      (groups : List (Group R))
      → AreGroups hosts seen groups
      → AreGroups hosts (seen ++ rs) (add_reports rs groups)
  unfolding add_reports
  add_reports-AreGroups [] hosts seen groups a =
      subst (λ l. AreGroups hosts l groups) (sym (append-nil seen)) a
  add_reports-AreGroups (r ∷ rs) hosts seen groups a =
      subst (λ l. AreGroups hosts l (add_reports (r ∷ rs) groups)) (append_assoc seen (r ∷ []) rs)
        (add_reports-AreGroups rs hosts (seen ++ r ∷ []) (add_report groups r)
          (add_report-AreGroups hosts seen r groups a))
