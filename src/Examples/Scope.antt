-- ===== src/Examples/Scope.antt =====
-- internal/web/scope.go at concrete inputs: alice's group opens one namespace of two.
use binnacle.Prelude.{ℕ, List, [], ◌∷◌, Text, text, ◌≡◌, ◌≢◌, ◌↔◌, ◌⊎◌, true, In, arith}
use binnacle.Web.Scope.{
  ClusterRef, ClusterView, StorageCluster, Storage, filter_views, filter_storage, resolve_scope,
  allows,
}
use binnacle.Web.Scope.Laws.{filter_views-shows, filter_storage-shows, Opens}

abbrev site_a : ClusterRef
site_a = record { namespace = text "site-a"; name = text "a" }

abbrev site_b : ClusterRef
site_b = record { namespace = text "site-b"; name = text "b" }

abbrev view_a : ClusterView ℕ
view_a = record { ref = site_a; detail = 1 }

abbrev views : List (ClusterView ℕ)
views = view_a ∷ record { ref = site_b; detail = 2 } ∷ []

abbrev scopes : List (Text × List Text)
scopes = (text "ops", text "site-a" ∷ []) ∷ []

abbrev groups : List Text
groups = text "dev" ∷ text "ops" ∷ []

scopes_set : scopes ≢ []
scopes_set e = absurd (ground (arith, e))

filter_views-shows_example :
    In view_a (filter_views views (resolve_scope groups scopes))
    ↔ (In view_a views × (Opens scopes groups (text "*") ⊎ Opens scopes groups (text "site-a")))
filter_views-shows_example = filter_views-shows views groups scopes view_a scopes_set

abbrev ceph : StorageCluster ℕ
ceph = record { reported_by = site_b ∷ site_a ∷ []; detail = 7 }

abbrev storage : Storage ℕ
storage = record { clusters = ceph ∷ []; unlabeled = 2; known = true }

filter_storage-shows_example :
    (In ceph (filter_storage storage (resolve_scope groups scopes)).clusters ↔ (
      In ceph storage.clusters
      × (((resolve_scope groups scopes).all ≡ true)
          ⊎ ((ref : ClusterRef) × In ref ceph.reported_by
              × (allows (resolve_scope groups scopes) ref.namespace ≡ true)))))
    × ((filter_storage storage (resolve_scope groups scopes)).unlabeled ≡ storage.unlabeled)
    × ((filter_storage storage (resolve_scope groups scopes)).known ≡ storage.known)
filter_storage-shows_example = filter_storage-shows storage (resolve_scope groups scopes) ceph
