-- ===== src/Fleet/Reconcile/Leaks.antt =====
-- A start keeps the collectors and the files of credentials in order (internal/fleet/fleet.go, `start`).
use binnacle.Prelude.{
  ℕ, ◌+◌, ◌<◌, List, [], ◌∷◌, none, some, Option, Text, text_eq, text_eq_iff, text_eq_refl,
  text_eq_sound, ◌≡◌, ◌≢◌, ◌⊎◌, inl, inr, arith, sym, ap, subst, ◌∙◌, Bool-cases, Option-cases, In,
  ℕ_discrete,
}
use binnacle.Store.{lookup}
use binnacle.Fleet.Discover.{Discovered, key_of}
use binnacle.Fleet.Reconcile.{
  Options, Collector, Fleet, clouds_file, spoil, prepare, launched, start,
}
use binnacle.Fleet.Reconcile.Maps.{lookup-insert, lookup-start, discovered-launched}
use binnacle.Fleet.Reconcile.Tidy.{IsAt, IsSpoiled, IsTidy}

clouds_file_ne : (dir key : Text) → clouds_file dir key ≢ []
unfolding clouds_file
clouds_file_ne [] key e = absurd (ground (arith, e))
clouds_file_ne (c ∷ dir) key e = absurd (ground (arith, e))

spoil_files :
    (o : Option Text) (path : Text) (files : List (Text × Text)) (p contents : Text)
    → lookup p (spoil o path files) ≡ some contents
    → (lookup p files ≡ some contents) ⊎ (path ≡ p)
unfolding spoil
spoil_files none path files p contents h = inl h
spoil_files (some rest) path files p contents h = elim (Bool-cases (text_eq path p)) [
  | inl q ↦ inr (text_eq_sound path p q)
  | inr q ↦ inl (ground (arith, h, q, lookup-insert p path rest files))
]

module _ {C : Type 0} (opts : Options) where
  launched_files :
      (d : Discovered C) (n : ℕ) (files : List (Text × Text)) (p contents : Text)
      → lookup p (launched opts d n files).1 ≡ some contents
      → (((launched opts d n files).0.clouds_path ≡ p) × (p ≢ []))
        ⊎ (lookup p files ≡ some contents)
        ⊎ IsSpoiled opts p
  unfolding launched prepare
  launched_files d n files p contents h = elim (Option-cases d.config) [
    | inl e ↦ inr (inl (ground (arith, h, e)))
    | inr (cfg, e) ↦ elim (Option-cases d.clouds) [
      | inl f ↦ inr (inl (ground (arith, h, e, f)))
      | inr (creds, f) ↦
          let path = clouds_file opts.clouds_dir (key_of d) in
          elim (Option-cases (opts.disk n path)) [
            | inr (x, g) ↦
                let after : (launched opts d n files).1 ≡ spoil (opts.partial n path) path files =
                  ground (arith, e, f, g) in
                elim (spoil_files (opts.partial n path) path files p contents
                  (ap (lookup p) (sym after) ∙ h)) [
                    | inl old ↦ inr (inl old)
                    | inr same ↦
                        inr
                          (inr (n, inr (λ q. absurd (ground (arith, g, ap (opts.disk n) same, q)))))
                  ]
            | inl g ↦ elim (Bool-cases (text_eq path p)) [
              | inl q ↦
                  let same = text_eq_sound path p q in
                  let is_path : (launched opts d n files).0.clouds_path ≡ path =
                    ground (arith, e, f, g) in
                  inl (
                    is_path ∙ same,
                    subst (λ p. p ≢ []) same (clouds_file_ne opts.clouds_dir (key_of d)),
                  )
              | inr q ↦ inr (
                  inl (ground (arith, h, e, f, g, q, lookup-insert p path creds.clouds_yaml files)))
            ]
          ]
    ]
  ]

  module _ (f : Fleet C) (d : Discovered C) (missing : lookup (key_of d) f.clusters ≡ none) where
    abbrev newest : Collector C
    newest = (launched opts d f.started f.files).0

    IsAt-start : (k : Text) (t : Collector C) → IsAt f k t → IsAt (start opts f d) k t
    IsAt-start k t i = ground (arith, i, missing, lookup-start opts f d k, text_eq_iff (key_of d) k)

    newest-IsAt : IsAt (start opts f d) (key_of d) newest
    newest-IsAt = ground (arith, lookup-start opts f d (key_of d), text_eq_refl (key_of d))

    start-IsAt :
        (k : Text) (t : Collector C)
        → IsAt (start opts f d) k t
        → ((key_of d ≡ k) × (t ≡ newest)) ⊎ IsAt f k t
    start-IsAt k t i = elim (Bool-cases (text_eq (key_of d) k)) [
      | inl q ↦ inl (text_eq_sound (key_of d) k q, ground (arith, i, q, lookup-start opts f d k))
      | inr q ↦ inr (ground (arith, i, q, lookup-start opts f d k))
    ]

    number-newest : newest.number ≡ f.started
    number-newest = (discovered-launched opts d f.started f.files).1

    start-tracked :
        IsTidy opts f
        → (k : Text) (t : Collector C) → IsAt (start opts f d) k t
        → (t.number < f.started + 1) × (In t.number f.cancelled → ⊥)
    start-tracked h k t i = elim (start-IsAt k t i) [
      | inl (e, q) ↦
          let same : t.number ≡ f.started = ap (λ (t : Collector C). t.number) q ∙ number-newest in
          (omega (arith, same), λ c. absurd (omega (arith, same, h.past t.number c)))
      | inr j ↦ let (lt, alive) = h.tracked k t j in (omega (arith, lt), alive)
    ]

    start-apart :
        IsTidy opts f
        → (k j : Text) (t u : Collector C) → IsAt (start opts f d) k t
        → IsAt (start opts f d) j u
        → t.number ≡ u.number
        → k ≡ j
    start-apart h k j t u i l q = elim (start-IsAt k t i) [
      | inl (e, r) ↦ elim (start-IsAt j u l) [
        | inl (e', r') ↦ sym e ∙ e'
        | inr l' ↦ absurd (
            omega
              (arith, q, ap (λ (t : Collector C). t.number) r, number-newest, (h.tracked j u l').0))
      ]
      | inr i' ↦ elim (start-IsAt j u l) [
        | inl (e', r') ↦ absurd (
            omega (
              arith,
              q,
              ap (λ (t : Collector C). t.number) r',
              number-newest,
              (h.tracked k t i').0,
            ))
        | inr l' ↦ h.apart k j t u i' l' q
      ]
    ]

    pub start-IsTidy : IsTidy opts f → IsTidy opts (start opts f d)
    unfolding start
    start-IsTidy h = record {
      running = λ n lt. elim (ℕ_discrete n f.started) [
        | yes e ↦ inr (key_of d, newest, newest-IsAt, number-newest ∙ sym e)
        | no ne ↦ elim (h.running n (omega (arith, lt, ne))) [
          | inl i ↦ inl i
          | inr (k, t, i, q) ↦ inr (k, t, IsAt-start k t i, q)
        ]
      ];
      tracked = start-tracked h;
      apart = start-apart h;
      past = λ n i. omega (arith, h.past n i);
      owned = λ p contents q. elim (launched_files d f.started f.files p contents q) [
        | inl (path, ne) ↦ inl (key_of d, newest, newest-IsAt, path, ne)
        | inr (inr bad) ↦ inr bad
        | inr (inl old) ↦ elim (h.owned p contents old) [
          | inl (k, t, i, path, ne) ↦ inl (k, t, IsAt-start k t i, path, ne)
          | inr bad ↦ inr bad
        ]
      ];
    }
