-- ===== src/Fleet/Storage/Whole.antt =====
-- The storage layer has one cluster for each fsid and invents none (internal/fleet/storage.go,
-- `StorageFor`).
use mathlib.Core.List.{Perm}
use mathlib.Core.List.Perm
use binnacle.Fleet.Storage.Contents.{MayPrecede, IsClusterOf}
use binnacle.Prelude.{true, List, map, Text, ◌≡◌, ◌↔◌, count_if, In, Distinct}
use binnacle.Prelude.Sort.{Pairwise}
use binnacle.Model.{BareMetalHost}
use binnacle.Fleet.Storage.{CephReport, StorageCluster, Storage}
use binnacle.Fleet.Storage.Groups.{is_unlabeled, is_used}

module _ {R : Type 0} where
  -- What the storage layer of some hosts and reports should be.
  abbrev pub IsStorage : List BareMetalHost → List (CephReport R) → Storage R → Type 0
  IsStorage hosts reports s =
      let fsids = map (λ (c : StorageCluster R). c.fsid) s.clusters in
      Distinct fsids
      × ((f : Text) → In f fsids ↔ (is_used hosts reports f ≡ true))
      × ((c : StorageCluster R) → In c s.clusters → IsClusterOf hosts reports c)
      × Pairwise MayPrecede s.clusters
      × (s.unlabeled ≡ count_if is_unlabeled hosts)
