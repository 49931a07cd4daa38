-- ===== src/Fleet/Discover/Whole.antt =====
-- No cluster is dropped for want of credentials (internal/fleet/discover.go, `List`).
use binnacle.Prelude.{
  List, [], ◌∷◌, map, none, some, Text, ◌≡◌, ◌⊎◌, inl, inr, refl, arith, ap, sym, subst, ◌∙◌, ◌++◌,
  text, Option-cases, All,
}
use binnacle.Fleet.Discover.{
  Api, Discovered, discover, list_all, workload_config, value_of, error_of,
}
use binnacle.Fleet.Discover.Sole.{Sum-cases}

module _ {C : Type 0} (api : Api C) (scope : Text) where
  -- The cluster has a client's configuration or the reason why not, and never both.
  abbrev pub IsResolved : Discovered C → Type 0
  IsResolved d =
      ((cfg : C) × (d.config ≡ some cfg) × (d.err ≡ none))
      ⊎ ((e : Text) × (d.config ≡ none) × (d.err ≡ some e))

  abbrev pub identity : Discovered C → Text × Text
  identity d = (d.namespace, d.name)

  -- What the answer of `List` should be: an error only where the clusters cannot be enumerated.
  abbrev pub IsWhole : Text ⊎ List (Discovered C) → Type 0
  IsWhole (inl e) =
      ((x : Text) × (api.rest_mapping ≡ some x)) ⊎ ((x : Text) × (api.list_clusters scope ≡ inl x))
  IsWhole (inr ds) =
      (api.rest_mapping ≡ none)
      × (api.list_clusters scope ≡ inr (map identity ds))
      × All IsResolved ds

  discover-IsResolved : (item : Text × Text) → IsResolved (discover api item)
  unfolding discover
  discover-IsResolved (namespace, name) = elim (Sum-cases (workload_config api namespace name)) [
    | inl (e, h) ↦ inr (e, ap (value_of api) h, ap (error_of api) h)
    | inr (cfg, h) ↦ inl (cfg, ap (value_of api) h, ap (error_of api) h)
  ]

  discover-All : (items : List (Text × Text)) → All IsResolved (map (discover api) items)
  discover-All [] = tt
  discover-All (i ∷ is) = (discover-IsResolved i, discover-All is)

  identity-discover : (items : List (Text × Text)) → map identity (map (discover api) items) ≡ items
  unfolding discover
  identity-discover [] = refl
  identity-discover (i ∷ is) = ap (λ l. i ∷ l) (identity-discover is)

  -- The list fails only where the kind or the clusters themselves cannot be listed. Otherwise it has
  -- every cluster, in the order of the API server, each with a client's configuration or with the
  -- reason why it has none.
  pub list_all-IsWhole : IsWhole (list_all api scope)
  unfolding list_all
  list_all-IsWhole = elim (Option-cases api.rest_mapping) [
    | inr (x, e) ↦
        let same : inl (text "the management cluster does not have Cluster API installed: " ++ x)
            ≡ list_all api scope =
          ground (arith, e) in
        subst IsWhole same (inl (x, e))
    | inl e ↦ elim (Sum-cases (api.list_clusters scope)) [
      | inl (x, f) ↦
          let same : inl (text "list clusters: " ++ x) ≡ list_all api scope =
            ground (arith, e, f) in
          subst IsWhole same (inr (x, f))
      | inr (items, f) ↦
          let same : inr (map (discover api) items) ≡ list_all api scope = ground (arith, e, f) in
          subst IsWhole same (e, f ∙ ap inr (sym (identity-discover items)), discover-All items)
    ]
  ]
