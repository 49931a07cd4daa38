-- ===== src/Lib.antt =====
-- A model of binnacle, a dashboard for fleets of Kubernetes clusters on bare metal, and the theorems
-- that its core logic rests on.
--
-- Sources publish snapshots of cluster objects into a store; the health strip, the rollout detector and
-- the joined host table are computed from the snapshots with the site's conventions (the profile);
-- the terminal dashboard lays its panes out on a grid; the web server shows the same fleet behind a
-- login, cut down to the namespaces that the user's groups open.
--
--   Model     pkg/model/model.go: the snapshot's records, field by field, and their predicates
--   Store     pkg/store/store.go: Put, Raw, Keys, Subscribe, Unsubscribe and Get as functions on the
--             state; Store/Concurrent has their interleavings as a step relation, in which a write
--             and each of the sends that follow it are steps of their own
--   Profile   pkg/profile/profile.go: roles of nodes, cordons, events, critical workloads
--   Rollout   pkg/rollout/rollout.go: Detect and Active
--   Health    pkg/health: Status, Worst and the JSON of a status, NeedsAttention, Pins; Health/Cells has
--             the cells of the strip
--   Capi      internal/core/capi/join.go: Join, ActivityRank, UnclaimedHosts
--   Auth      internal/auth/auth.go and bearer.go: Middleware, the session cookie, bearer tokens, the
--             login and its callback, NewOIDC, RequireOIDCOffLoopback
--   Web       internal/web/scope.go: ResolveScope and the filters of the pages, in Web/Scope
--   Grid      pkg/tui/grid/grid.go: spans in Grid, the rows of Compute in Grid/Place, its columns and the
--             growth of the tiles in Grid/Cells, divideWidth and liftToFloors in Grid/Widths,
--             bandOf and capRowHeights in Grid/Heights
--   Fleet     internal/fleet. Fleet/Views is the card of a cluster and the page of all of them (view,
--             readManagement, readWorkload, scopeHostsCell, View in fleet.go); Fleet/Discover the clusters
--             and their credentials (discover.go, clouds.go); Fleet/Reconcile the collectors that a tick
--             starts and stops, and the files of their credentials (reconcile, start, stop, stopAll, Run;
--             writeClouds in clouds.go); Fleet/Tables the rows of a page
--             (tables.go); Fleet/Storage the storage clusters of a data center (storage.go); Fleet/Events
--             the events of a page and the printing of ages (detail.go, events.go); Fleet/Pages the page of
--             a cluster and that of the management cluster (detail.go, management.go,
--             management_detail.go)
--   Examples  the theorems applied at concrete inputs
--   Prelude   numbers, lists, texts, orders and the stable sort that the parts share
--
-- Conventions. A text is the list of its bytes. A Go int is a signed or a natural number without
-- a bound, where the code keeps it far from one; the sums of replicas, which the code computes in 32
-- bits, wrap. A map is an association list, and where the code ranges over one, the order of the list
-- stands for the order that Go leaves open. sort.Slice, which leaves the order of ties open, is a stable
-- sort. Times are numbers of nanoseconds.
--
-- Fuel. The loop of liftToFloors runs on one more than the cells that the columns lack together: each
-- pass lessens that by one. The decimal digits of a number and the loop of itoa run on the number
-- itself. All other
-- loops are structural.
--
-- Parameters. What the code takes from packages outside the repository is an argument: the signature,
-- base64, the parsing of numbers and addresses and the verification of tokens (Auth.Env), the
-- provider's exchange, the JSON encoder, the type assertions of a typed read, the regular expression
-- of a context's name, the API server of the management cluster and the parsing of a
-- kubeconfig (Fleet.Discover.Api), the file system's refusals to write and to remove a file, what the plugins add to a card.
--
-- Not modelled: the network and the clients of the clusters, rendering and templates, configuration
-- files and flags; of the grid, row weights, fixed rows, stacked panes and the assembly of the tiles; the
-- goroutines of a collector and its probe and the subsystems' panes of a page in internal/fleet; the plugins and subsystems; the wire format.
pub mod Prelude
pub mod Model
pub mod Store
pub mod Profile
pub mod Health
pub mod Rollout
pub mod Capi
pub mod Auth
pub mod Web
pub mod Grid
pub mod Fleet
pub mod Examples
