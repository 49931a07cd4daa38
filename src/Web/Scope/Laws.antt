-- ===== src/Web/Scope/Laws.antt =====
-- What a scope lets through and what the pages list (internal/web/scope.go).
use binnacle.Prelude.{
  Bool, true, List, [], ◌∷◌, none, some, Text, text, text_eq, ◌≡◌, refl, some_of, keep, In, ◌⊎◌,
  inl, inr, ◌↔◌, ◌≢◌, arith, text_eq_sound, text_eq_iff, text_eq_refl, some_of-In, In-some_of,
  In-keep, keep-In, Bool-cases, Option-cases, sym, subst, is_empty-ne,
}
use binnacle.Web.Scope.{
  Scope, all_scope, allows, patterns_of, add_patterns, add_groups, resolve_scope, filter_views,
  filter_storage, ClusterView, ClusterRef, Storage, StorageCluster,
}

-- The text is among the patterns of one of the groups.
abbrev pub Opens : List (Text × List Text) → List Text → Text → Type 0
Opens scopes groups p =
    (g : Text) × (patterns : List Text) × In g groups
    × (patterns_of g scopes ≡ some patterns)
    × In p patterns

-- What `add_patterns` answers: it stops at a star, else it has put the patterns in front.
add_patterns-none : (ps ns : List Text) → add_patterns ps ns ≡ none → In (text "*") ps
unfolding add_patterns
add_patterns-none [] ns h = absurd (ground arith)
add_patterns-none (p ∷ ps) ns h = elim (Bool-cases (text_eq p (text "*"))) [
  | inl e ↦ inl (sym (text_eq_sound p (text "*") e))
  | inr e ↦ inr (add_patterns-none ps (p ∷ ns) (ground (arith, e)))
]

add_patterns-star : (ps ns : List Text) → In (text "*") ps → add_patterns ps ns ≡ none
unfolding add_patterns
add_patterns-star [] ns i = elim i [ ]
add_patterns-star (p ∷ ps) ns (inl e) =
    let k : text_eq p (text "*") ≡ true = (text_eq_iff p (text "*")).1 (sym e) in ground (arith, k)
add_patterns-star (p ∷ ps) ns (inr i) = ground (arith, add_patterns-star ps (p ∷ ns) i)

add_patterns-In :
    (ps ns out : List Text) (q : Text)
    → add_patterns ps ns ≡ some out
    → (In q out ↔ (In q ps ⊎ In q ns))
unfolding add_patterns
add_patterns-In [] ns out q h =
    let e : ns ≡ out = ground arith in
    (
      (λ i. inr (subst (In q) (sym e) i)),
      λ x. elim x [ inl i ↦ elim i [ ] | inr i ↦ subst (In q) e i ],
    )
add_patterns-In (p ∷ ps) ns out q h = elim (Bool-cases (text_eq p (text "*"))) [
  | inl e ↦ absurd (ground (arith, e))
  | inr e ↦
      let (to, from) = add_patterns-In ps (p ∷ ns) out q (ground (arith, e)) in
      (
        (λ i. elim (to i) [
          | inl j ↦ inl (inr j)
          | inr (inl j) ↦ inl (inl j)
          | inr (inr j) ↦ inr j
        ]),
        λ x. elim x [
          | inl (inl j) ↦ from (inr (inl j))
          | inl (inr j) ↦ from (inl j)
          | inr j ↦ from (inr (inr j))
        ],
      )
]

-- The fold over the groups, for one text: stars stop it, all else is collected.
add_groups-In :
    (groups : List Text) (scopes : List (Text × List Text)) (ns out : List Text) (q : Text)
    → add_groups groups scopes ns ≡ some out
    → (In q out ↔ (Opens scopes groups q ⊎ In q ns))
unfolding add_groups
add_groups-In [] scopes ns out q h =
    let e : ns ≡ out = ground arith in
    (
      (λ i. inr (subst (In q) (sym e) i)),
      λ x. elim x [ inl (g, ps, i, r, l) ↦ elim i [ ] | inr i ↦ subst (In q) e i ],
    )
add_groups-In (g ∷ groups) scopes ns out q h = elim (Option-cases (patterns_of g scopes)) [
  | inl e ↦
      let (to, from) = add_groups-In groups scopes ns out q (ground (arith, e)) in
      (
        (λ i. elim (to i) [ inl (g', ps, j, r, l) ↦ inl (g', ps, inr j, r, l) | inr j ↦ inr j ]),
        λ x. elim x [
          | inl (g', ps, inl j, k, l) ↦ absurd (ground (arith, e, j, k))
          | inl (g', ps, inr j, r, l) ↦ from (inl (g', ps, j, r, l))
          | inr j ↦ from (inr j)
        ],
      )
  | inr (patterns, e) ↦ elim (Option-cases (add_patterns patterns ns)) [
    | inl f ↦ absurd (ground (arith, e, f))
    | inr (ns', f) ↦
        let (to, from) = add_groups-In groups scopes ns' out q (ground (arith, e, f)) in
        let (to', from') = add_patterns-In patterns ns ns' q f in
        (
          (λ i. elim (to i) [
            | inl (g', ps, j, r, l) ↦ inl (g', ps, inr j, r, l)
            | inr j ↦ elim (to' j) [ inl k ↦ inl (g, patterns, inl refl, e, k) | inr k ↦ inr k ]
          ]),
          λ x. elim x [
            | inl (g', ps, inl j, k, l) ↦
                let same : ps ≡ patterns = ground (arith, e, j, k) in
                from (inr (from' (inl (subst (In q) same l))))
            | inl (g', ps, inr j, r, l) ↦ from (inl (g', ps, j, r, l))
            | inr j ↦ from (inr (from' (inr j)))
          ],
        )
  ]
]

add_groups-none :
    (groups : List Text) (scopes : List (Text × List Text)) (ns : List Text)
    → add_groups groups scopes ns ≡ none ↔ Opens scopes groups (text "*")
unfolding add_groups
add_groups-none [] scopes ns =
    ((λ h. absurd (ground arith)), λ x. let (g, ps, i, r, l) = x in elim i [ ])
add_groups-none (g ∷ groups) scopes ns = elim (Option-cases (patterns_of g scopes)) [
  | inl e ↦
      let (to, from) = add_groups-none groups scopes ns in
      (
        (λ h. let (g', ps, j, r, l) = to (ground (arith, e)) in (g', ps, inr j, r, l)),
        λ x.
            let (g', ps, i, k, l) = x in
            elim i [
              | inl j ↦ absurd (ground (arith, e, j, k))
              | inr j ↦ let stop = from (g', ps, j, k, l) in ground (arith, e)
            ],
      )
  | inr (patterns, e) ↦ elim (Option-cases (add_patterns patterns ns)) [
    | inl f ↦ (
      (λ h. (g, patterns, inl refl, e, add_patterns-none patterns ns f)),
      λ x. ground (arith, e, f),
    )
    | inr (ns', f) ↦
        let (to, from) = add_groups-none groups scopes ns' in
        (
          (λ h. let (g', ps, j, r, l) = to (ground (arith, e, f)) in (g', ps, inr j, r, l)),
          λ x.
              let (g', ps, i, k, l) = x in
              elim i [
                | inl j ↦
                    let same : ps ≡ patterns = ground (arith, e, j, k) in
                    let stop = add_patterns-star patterns ns (subst (In (text "*")) same l) in
                    absurd (ground (arith, f))
                | inr j ↦ let stop = from (g', ps, j, k, l) in ground (arith, e, f)
              ],
        )
  ]
]

-- With scoping configured, a user may see a namespace exactly if one of the user's groups is mapped to
-- patterns among which are that namespace or "*".
pub allows-resolve_scope :
    (groups : List Text) (scopes : List (Text × List Text)) (namespace : Text)
    → scopes ≢ []
    → (allows (resolve_scope groups scopes) namespace ≡ true)
      ↔ (Opens scopes groups (text "*") ⊎ Opens scopes groups namespace)
unfolding allows resolve_scope all_scope
allows-resolve_scope groups scopes namespace ne =
    let some_scope = is_empty-ne scopes ne in
    elim (Option-cases (add_groups groups scopes [])) [
      | inl e ↦
          ((λ h. inl ((add_groups-none groups scopes []).0 e)), λ x. ground (arith, e, some_scope))
      | inr (ns, e) ↦
          let (to, from) = add_groups-In groups scopes [] ns namespace e in
          (
            (λ h.
                let hit : some_of (text_eq namespace) ns ≡ true = ground (arith, e, some_scope) in
                let (q, i, k) = some_of-In (text_eq namespace) ns hit in
                elim (to (subst (λ t. In t ns) (sym (text_eq_sound namespace q k)) i)) [
                  | inl o ↦ inr o
                  | inr j ↦ elim j [ ]
                ]),
            λ x. elim x [
              | inl star ↦
                  let stop = (add_groups-none groups scopes []).1 star in absurd (ground (arith, e))
              | inr o ↦
                  let hit =
                    In-some_of (text_eq namespace) ns namespace (from (inl o))
                      (text_eq_refl namespace) in
                  ground (arith, e, some_scope)
            ],
          )
    ]

module _ {D : Type 0} where
  filter_views-allows :
      (views : List (ClusterView D)) (scope : Scope) (v : ClusterView D)
      → In v (filter_views views scope) ↔ (In v views × (allows scope v.ref.namespace ≡ true))
  unfolding filter_views allows
  filter_views-allows views scope v = elim (Bool-cases scope.all) [
    | inl e ↦ (
      (λ i. (subst (In v) (ground (arith, e)) i, ground (arith, e))),
      λ x. subst (In v) (ground (arith, e)) x.0,
    )
    | inr e ↦
        let p : ClusterView D → Bool = λ u. allows scope u.ref.namespace in
        let same : filter_views views scope ≡ keep p views = ground (arith, e) in
        (
          (λ i. In-keep p views v (subst (In v) same i)),
          λ x. subst (In v) (sym same) (keep-In p views v x.0 x.1),
        )
  ]

  -- With scoping configured, the page lists a cluster exactly if it is one of the fleet's and a group of
  -- the user is mapped to patterns with "*" or the cluster's namespace.
  pub filter_views-shows :
      (views : List (ClusterView D)) (groups : List Text) (scopes : List (Text × List Text))
      (v : ClusterView D)
      → scopes ≢ []
      → In v (filter_views views (resolve_scope groups scopes))
        ↔ (In v views × (Opens scopes groups (text "*") ⊎ Opens scopes groups v.ref.namespace))
  filter_views-shows views groups scopes v ne =
      let (to, from) = filter_views-allows views (resolve_scope groups scopes) v in
      let (opens, closes) = allows-resolve_scope groups scopes v.ref.namespace ne in
      ((λ i. ((to i).0, opens (to i).1)), λ x. from (x.0, closes x.1))

  -- A storage cluster is listed exactly if it is one of the fleet's and one of the clusters that report
  -- it is allowed, or the scope allows everything; the counts of the hardware stay.
  pub filter_storage-shows :
      (storage : Storage D) (scope : Scope) (sc : StorageCluster D)
      → (In sc (filter_storage storage scope).clusters ↔ (
          In sc storage.clusters
          × ((scope.all ≡ true)
              ⊎ ((ref : ClusterRef) × In ref sc.reported_by
                  × (allows scope ref.namespace ≡ true)))))
        × ((filter_storage storage scope).unlabeled ≡ storage.unlabeled)
        × ((filter_storage storage scope).known ≡ storage.known)
  unfolding filter_storage
  filter_storage-shows storage scope sc = elim (Bool-cases scope.all) [
    | inl e ↦ (
      (
        (λ i. (subst (λ s. In sc s) (ground (arith, e)) i, inl e)),
        λ x. subst (λ s. In sc s) (ground (arith, e)) x.0,
      ),
      ground (arith, e),
      ground (arith, e),
    )
    | inr e ↦
        let q : ClusterRef → Bool = λ ref. allows scope ref.namespace in
        let p : StorageCluster D → Bool = λ u. some_of q u.reported_by in
        let same : (filter_storage storage scope).clusters ≡ keep p storage.clusters =
          ground (arith, e) in
        (
          (
            (λ i.
                let (j, k) = In-keep p storage.clusters sc (subst (In sc) same i) in
                (j, inr (some_of-In q sc.reported_by k))),
            λ x. elim x.1 [
              | inl all ↦ absurd (ground (arith, e))
              | inr (ref, i, k) ↦
                  subst (In sc) (sym same)
                    (keep-In p storage.clusters sc x.0 (In-some_of q sc.reported_by ref i k))
            ],
          ),
          ground (arith, e),
          ground (arith, e),
        )
  ]
