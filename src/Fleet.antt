-- ===== src/Fleet.antt =====
-- internal/fleet: what the whole fleet looks like. Tables orders and folds the rows of a page
-- (tables.go), Views reduces one cluster's store to its card (fleet.go), Reconcile keeps one collector
-- for each discovered cluster (fleet.go), Discover finds the clusters and their credentials (discover.go,
-- clouds.go), Storage groups hosts into storage clusters (storage.go), Events groups the events of a
-- page (detail.go, events.go), and Pages is the page of a cluster and of the management cluster
-- (detail.go, management.go, management_detail.go).
--
-- `sort.Slice`, which leaves the order of equal elements open, is the stable sort here.
pub mod Tables
pub mod Views
pub mod Discover
pub mod Reconcile
pub mod Storage
pub mod Events
pub mod Pages
