-- ===== src/Web/Scope.antt =====
-- internal/web/scope.go: the namespaces that a user's groups open, and the filters of the pages.
--
-- A Go map from a group to its patterns is an association list; `for range` over the map's keys does
-- not occur, so the order is not observed. `namespaces` of a scope is the list of the keys that were
-- set to true.
use binnacle.Prelude.{
  ℕ, Bool, true, false, not, ◌||◌, List, [], ◌∷◌, ◌++◌, Option, none, some, Text, text, text_eq,
  is_empty, some_of, keep, if◌then◌else◌, map,
}
pub mod Laws

pub record Scope : Type 0 where
  pub namespaces : List Text
  pub all : Bool

unfoldable pub all_scope : Scope
all_scope = record { namespaces = []; all = true }

unfoldable pub allows : Scope → Text → Bool
allows s namespace = if s.all then true else some_of (text_eq namespace) s.namespaces

-- `patterns, ok := groupScopes[g]`
unfoldable pub patterns_of : Text → List (Text × List Text) → Option (List Text)
patterns_of g [] = none
patterns_of g ((k, patterns) ∷ m) =
    let rest = patterns_of g m in if text_eq k g then some patterns else rest

-- The loop over one group's patterns; `none` is its return of `AllScope`.
unfoldable pub add_patterns : List Text → List Text → Option (List Text)
add_patterns [] ns = some ns
add_patterns (p ∷ patterns) ns =
    let rest = add_patterns patterns (p ∷ ns) in if text_eq p (text "*") then none else rest

-- The loop over the groups.
unfoldable pub add_groups : List Text → List (Text × List Text) → List Text → Option (List Text)
unfolding patterns_of add_patterns
add_groups [] group_scopes ns = some ns
add_groups (g ∷ groups) group_scopes ns = elim (patterns_of g group_scopes) [
  | none ↦ add_groups groups group_scopes ns
  | some patterns ↦ elim (add_patterns patterns ns) [
    | none ↦ none
    | some ns' ↦ add_groups groups group_scopes ns'
  ]
]

unfoldable pub resolve_scope : List Text → List (Text × List Text) → Scope
resolve_scope groups group_scopes =
    if is_empty group_scopes then all_scope else elim (add_groups groups group_scopes []) [
      | none ↦ all_scope
      | some ns ↦ record { namespaces = ns; all = false }
    ]

-- fleet.ClusterRef, a cluster by namespace and name.
pub record ClusterRef : Type 0 where
  pub namespace : Text
  pub name : Text

-- fleet.ClusterView: the filter reads the namespace and carries the other fields along, as `detail`.
pub record ClusterView (D : Type 0) : Type 0 where
  pub ref : ClusterRef
  pub detail : D

unfoldable pub filter_views : {D : Type 0} → List (ClusterView D) → Scope → List (ClusterView D)
filter_views views scope =
    if scope.all then views else keep (λ v. allows scope v.ref.namespace) views

-- fleet.StorageCluster and fleet.Storage, likewise.
pub record StorageCluster (D : Type 0) : Type 0 where
  pub reported_by : List ClusterRef
  pub detail : D

pub record Storage (D : Type 0) : Type 0 where
  pub clusters : List (StorageCluster D)
  pub unlabeled : ℕ
  pub known : Bool

unfoldable pub filter_storage : {D : Type 0} → Storage D → Scope → Storage D
filter_storage storage scope = if scope.all then storage else record {
  clusters =
      keep (λ sc. some_of (λ ref. allows scope ref.namespace) sc.reported_by) storage.clusters;
  unlabeled = storage.unlabeled;
  known = storage.known;
}
