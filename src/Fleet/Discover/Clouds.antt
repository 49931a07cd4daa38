-- ===== src/Fleet/Discover/Clouds.antt =====
-- The same choice for OpenStack (internal/fleet/clouds.go, `clouds`).
use binnacle.Prelude.{
  List, [], ◌∷◌, ◌++◌, some, Text, ◌≡◌, ◌↔◌, ◌⊎◌, inl, inr, refl, arith, sym, subst, ◌∙◌, keep,
}
use binnacle.Fleet.Discover.{
  Secret, Api, CloudCredentials, clouds_suffix, clouds_label, clouds_key, holds, label_is,
  credentials_from, given, sole_clouds, clouds_of,
}
use binnacle.Fleet.Discover.Sole.{
  Answer-cases, Sum-cases, IsChosen, chosen-found, not_chosen-failed, not_chosen-unlisted,
  chosen-listed,
}

module _ {C : Type 0} (api : Api C) where
  given_iff :
      (x : Text ⊎ CloudCredentials) (c : CloudCredentials)
      → (given api x ≡ inr (some c)) ↔ (x ≡ inr c)
  given_iff (inl e) c = ((λ h. absurd (ground (arith, h))), λ h. absurd (ground (arith, h)))
  given_iff (inr d) c = ((λ h. ground (arith, h)), λ h. ground (arith, h))

  sole_clouds_iff :
      (name : Text) (ss : List Secret) (c : CloudCredentials)
      → (sole_clouds api name ss ≡ inr (some c))
        ↔ ((s : Secret) × (ss ≡ s ∷ []) × (credentials_from api s ≡ inr c))
  unfolding sole_clouds
  sole_clouds_iff name [] c =
      (λ h. absurd (ground (arith, h)), λ (s, e, p). absurd (ground (arith, e)))
  sole_clouds_iff name (s ∷ []) c = (
    (λ h. (s, refl, (given_iff (credentials_from api s) c).0 h)),
    λ (s', e, p).
        let same : s' ≡ s = ground (arith, e) in
        (given_iff (credentials_from api s) c).1
          (subst (λ t. credentials_from api t ≡ inr c) same p),
  )
  sole_clouds_iff name (s ∷ s' ∷ ss) c =
      (λ h. absurd (ground (arith, h)), λ (t, e, p). absurd (ground (arith, e)))

  -- A cluster gets OpenStack credentials exactly when its chosen Secret gives them: the Secret named
  -- after the cluster or, only where that is not found, the only one with the cluster's label that holds
  -- a clouds.yaml.
  clouds_of_iff :
      (namespace name : Text) (c : CloudCredentials)
      → (clouds_of api namespace name ≡ inr (some c)) ↔ (
          (s : Secret) × IsChosen api clouds_suffix clouds_label clouds_key namespace name s
          × (credentials_from api s ≡ inr c))
  unfolding clouds_of
  clouds_of_iff namespace name c =
      elim (Answer-cases (api.get_secret namespace (name ++ clouds_suffix))) [
        | inl (s, e) ↦
            let same : clouds_of api namespace name ≡ given api (credentials_from api s) =
              ground (arith, e) in
            (
              (λ h. (s, inl e, (given_iff (credentials_from api s) c).0 (sym same ∙ h))),
              λ (t, chosen, p).
                  same
                  ∙ (given_iff (credentials_from api s) c).1 (
                      subst (λ t. credentials_from api t ≡ inr c)
                        (chosen-found api clouds_suffix clouds_label clouds_key namespace name t
                          chosen s e)
                        p),
            )
        | inr (inr (x, e)) ↦ (
          (λ h. absurd (ground (arith, h, e))),
          λ (t, chosen, p). absurd (
              not_chosen-failed api clouds_suffix clouds_label clouds_key namespace name t chosen x
                e),
        )
        | inr (inl e) ↦ elim (Sum-cases (api.list_secrets namespace (label_is clouds_label name))) [
          | inl (x, f) ↦ (
            (λ h. absurd (ground (arith, h, e, f))),
            λ (t, chosen, p). absurd (
                not_chosen-unlisted api clouds_suffix clouds_label clouds_key namespace name t
                  chosen x e f),
          )
          | inr (items, f) ↦
              let ss = keep (holds clouds_key) items in
              let same : clouds_of api namespace name ≡ sole_clouds api name ss =
                ground (arith, e, f) in
              (
                (λ h.
                    let (s, g, p) = (sole_clouds_iff name ss c).0 (sym same ∙ h) in
                    (s, inr (e, (items, f, g)), p)),
                λ (t, chosen, p).
                    same
                    ∙ (sole_clouds_iff name ss c).1 (
                      t,
                      chosen-listed api clouds_suffix clouds_label clouds_key namespace name t
                          chosen items e f,
                      p,
                    ),
              )
        ]
      ]
