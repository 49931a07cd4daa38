-- ===== src/Fleet/Discover/Sole.antt =====
-- No credential is chosen by resemblance (internal/fleet/discover.go, `workloadConfig`).
use binnacle.Prelude.{
  List, [], ◌∷◌, ◌++◌, some, Text, text, ◌≡◌, ◌↔◌, ◌⊎◌, inl, inr, refl, arith, sym, ap, subst, ◌∙◌,
  keep, Option-cases,
}
use binnacle.Store.{lookup}
use binnacle.Fleet.Discover.{
  Secret, Answer, found, not_found, failed, Api, kubeconfig_suffix, cluster_name_label, value_key,
  holds, label_is, config_from_secret, sole_config, workload_config,
}

pub Answer-cases :
    (a : Answer) → ((s : Secret) × (a ≡ found s)) ⊎ (a ≡ not_found) ⊎ ((e : Text) × (a ≡ failed e))
Answer-cases (found s) = inl (s, refl)
Answer-cases not_found = inr (inl refl)
Answer-cases (failed e) = inr (inr (e, refl))

pub Sum-cases : {A B : Type 0} (x : A ⊎ B) → ((a : A) × (x ≡ inl a)) ⊎ ((b : B) × (x ≡ inr b))
Sum-cases (inl a) = inl (a, refl)
Sum-cases (inr b) = inr (b, refl)

module _ {C : Type 0} (api : Api C) where
  -- The Secret is the one of the conventional name or, where there is none, the only one with the
  -- cluster's label that holds the key.
  abbrev pub IsChosen : Text → Text → Text → Text → Text → Secret → Type 0
  IsChosen suffix label key namespace name s =
      (api.get_secret namespace (name ++ suffix) ≡ found s)
      ⊎ ((api.get_secret namespace (name ++ suffix) ≡ not_found)
          × ((items : List Secret) × (api.list_secrets namespace (label_is label name) ≡ inr items)
              × (keep (holds key) items ≡ s ∷ [])))

  abbrev pub Parses : Secret → C → Type 0
  Parses s cfg =
      (raw : Text) × (lookup (text "value") s.content ≡ some raw) × (api.parse raw ≡ inr cfg)

  config_from_secret_iff :
      (s : Secret) (cfg : C) → (config_from_secret api s ≡ inr cfg) ↔ Parses s cfg
  unfolding config_from_secret
  config_from_secret_iff s cfg = (
    (λ h. elim (Option-cases (lookup value_key s.content)) [
      | inl e ↦ absurd (ground (arith, h, e))
      | inr (raw, e) ↦ (
        raw,
        e,
        elim (Sum-cases (api.parse raw)) [
          | inl (x, f) ↦ absurd (ground (arith, h, e, f))
          | inr (c, f) ↦ ground (arith, h, e, f)
        ],
      )
    ]),
    λ (raw, e, f). ground (arith, e, f),
  )

  sole_config_iff :
      (name : Text) (ss : List Secret) (cfg : C)
      → (sole_config api name ss ≡ inr cfg) ↔ ((s : Secret) × (ss ≡ s ∷ []) × Parses s cfg)
  unfolding sole_config
  sole_config_iff name [] cfg =
      (λ h. absurd (ground (arith, h)), λ (s, e, p). absurd (ground (arith, e)))
  sole_config_iff name (s ∷ []) cfg = (
    (λ h. (s, refl, (config_from_secret_iff s cfg).0 h)),
    λ (s', e, p).
        (config_from_secret_iff s cfg).1
          (let same : s' ≡ s = ground (arith, e) in subst (λ t. Parses t cfg) same p),
  )
  sole_config_iff name (s ∷ s' ∷ ss) cfg =
      (λ h. absurd (ground (arith, h)), λ (t, e, p). absurd (ground (arith, e)))

  -- What the answers of the API server leave of the choice.
  module _ (suffix label key namespace name : Text) (t : Secret)
      (chosen : IsChosen suffix label key namespace name t) where
    pub chosen-found : (s : Secret) → api.get_secret namespace (name ++ suffix) ≡ found s → t ≡ s
    chosen-found s e = elim chosen [
      | inl f ↦ ground (arith, e, f)
      | inr (f, rest) ↦ absurd (ground (arith, e, f))
    ]

    pub not_chosen-failed : (x : Text) → api.get_secret namespace (name ++ suffix) ≡ failed x → ⊥
    not_chosen-failed x e = elim chosen [
      | inl f ↦ absurd (ground (arith, e, f))
      | inr (f, rest) ↦ absurd (ground (arith, e, f))
    ]

    pub not_chosen-unlisted :
        (x : Text)
        → api.get_secret namespace (name ++ suffix) ≡ not_found
        → api.list_secrets namespace (label_is label name) ≡ inl x
        → ⊥
    not_chosen-unlisted x e f = elim chosen [
      | inl g ↦ absurd (ground (arith, e, g))
      | inr (g, (items, k, l)) ↦ absurd (ground (arith, f, k))
    ]

    pub chosen-listed :
        (items : List Secret)
        → api.get_secret namespace (name ++ suffix) ≡ not_found
        → api.list_secrets namespace (label_is label name) ≡ inr items
        → keep (holds key) items ≡ t ∷ []
    chosen-listed items e f = elim chosen [
      | inl g ↦ absurd (ground (arith, e, g))
      | inr (g, (items', k, l)) ↦
          let same : items ≡ items' = ground (arith, f, k) in ap (keep (holds key)) same ∙ l
    ]

  -- A cluster gets a client's configuration exactly when its chosen Secret parses to it: the Secret
  -- named after the cluster or, only where that is not found, the only one with the cluster's label
  -- that holds the key of a kubeconfig, whether or not the others' or its own parses.
  pub workload_config_iff :
      (namespace name : Text) (cfg : C)
      → (workload_config api namespace name ≡ inr cfg) ↔ (
          (s : Secret) × IsChosen
            (text "-kubeconfig")
            (text "cluster.x-k8s.io/cluster-name")
            (text "value")
            namespace
            name
            s
          × Parses s cfg)
  unfolding workload_config
  workload_config_iff namespace name cfg =
      elim (Answer-cases (api.get_secret namespace (name ++ kubeconfig_suffix))) [
        | inl (s, e) ↦
            let same : workload_config api namespace name ≡ config_from_secret api s =
              ground (arith, e) in
            (
              (λ h. (s, inl e, (config_from_secret_iff s cfg).0 (sym same ∙ h))),
              λ (t, chosen, p).
                  same
                  ∙ (config_from_secret_iff s cfg).1 (
                      subst (λ t. Parses t cfg)
                        (chosen-found kubeconfig_suffix cluster_name_label value_key namespace name
                          t chosen s e)
                        p),
            )
        | inr (inr (x, e)) ↦ (
          (λ h. absurd (ground (arith, h, e))),
          λ (t, chosen, p). absurd (
              not_chosen-failed kubeconfig_suffix cluster_name_label value_key namespace name t
                chosen x e),
        )
        | inr (inl e) ↦
            elim (Sum-cases (api.list_secrets namespace (label_is cluster_name_label name))) [
              | inl (x, f) ↦ (
                (λ h. absurd (ground (arith, h, e, f))),
                λ (t, chosen, p). absurd (
                    not_chosen-unlisted kubeconfig_suffix cluster_name_label value_key namespace
                      name t chosen x e f),
              )
              | inr (items, f) ↦
                  let ss = keep (holds value_key) items in
                  let same : workload_config api namespace name ≡ sole_config api name ss =
                    ground (arith, e, f) in
                  (
                    (λ h.
                        let (s, g, p) = (sole_config_iff name ss cfg).0 (sym same ∙ h) in
                        (s, inr (e, (items, f, g)), p)),
                    λ (t, chosen, p).
                        same
                        ∙ (sole_config_iff name ss cfg).1 (
                          t,
                          chosen-listed kubeconfig_suffix cluster_name_label value_key namespace
                              name t chosen items e f,
                          p,
                        ),
                  )
            ]
      ]
