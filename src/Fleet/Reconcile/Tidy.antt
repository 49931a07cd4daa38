-- ===== src/Fleet/Reconcile/Tidy.antt =====
-- The order that the collectors and the files of credentials are in, and that a stop keeps it
-- (internal/fleet/fleet.go, `stop`).
use binnacle.Prelude.{
  ℕ, ◌<◌, List, [], ◌∷◌, none, some, true, Text, text_eq, text_eq_iff, ◌≡◌, ◌≢◌, ◌↔◌, ◌⊎◌, inl, inr,
  arith, sym, ap, subst, ◌∙◌, is_empty, Bool-cases, Option-cases, In, ℕ_discrete, is_empty_sound,
}
use binnacle.Store.{lookup}
use binnacle.Fleet.Reconcile.{
  Options, Collector, Fleet, start_management, new, delete, remove_clouds, stop,
}
use binnacle.Fleet.Reconcile.Maps.{lookup-delete}

pub Text_discrete : Discrete Text
Text_discrete = hlevel ℕ_discrete

-- The system has refused to write the file or to remove it, for some collector.
abbrev pub IsSpoiled : Options → Text → Type 0
IsSpoiled opts p = (n : ℕ) × ((opts.stuck n p ≡ true) ⊎ (opts.disk n p ≢ none))

module _ {C : Type 0} where
  abbrev pub IsAt : Fleet C → Text → Collector C → Type 0
  IsAt f k t = lookup k f.clusters ≡ some t

  -- A collector that has been started runs for a tracked cluster or has been cancelled, and never both;
  -- two clusters have two collectors; and a file belongs to a tracked cluster, unless the
  -- system has refused to write or to remove it.
  pub record IsTidy (opts : Options) (f : Fleet C) : Type 0 where
    pub running :
        (n : ℕ)
        → n < f.started
        → In n f.cancelled ⊎ ((k : Text) × (t : Collector C) × IsAt f k t × (t.number ≡ n))
    pub tracked :
        (k : Text) (t : Collector C)
        → IsAt f k t
        → (t.number < f.started) × (In t.number f.cancelled → ⊥)
    pub apart :
        (k j : Text) (t u : Collector C) → IsAt f k t → IsAt f j u → t.number ≡ u.number → k ≡ j
    pub past : (n : ℕ) → In n f.cancelled → n < f.started
    pub owned :
        (p contents : Text)
        → lookup p f.files ≡ some contents
        → ((k : Text) × (t : Collector C) × IsAt f k t × (t.clouds_path ≡ p) × (p ≢ []))
          ⊎ IsSpoiled opts p

  pub new-IsTidy : (opts : Options) → IsTidy opts (start_management new)
  unfolding new start_management lookup
  new-IsTidy opts = record {
    running = λ n h. absurd (omega (arith, h));
    tracked = λ k t e. absurd (ground (arith, e));
    apart = λ k j t u e. absurd (ground (arith, e));
    past = λ n i. elim i [ ];
    owned = λ p c e. absurd (ground (arith, e));
  }

  pub remove_clouds-lookup :
      (opts : Options) (t : Collector C) (files : List (Text × Text)) (p contents : Text)
      → lookup p (remove_clouds opts t files) ≡ some contents
      → (lookup p files ≡ some contents) × (t.clouds_path ≡ p → (p ≡ []) ⊎ IsSpoiled opts p)
  unfolding remove_clouds
  remove_clouds-lookup opts t files p contents h = elim (Bool-cases (is_empty t.clouds_path)) [
    | inl e ↦ (ground (arith, h, e), λ same. inl (sym same ∙ is_empty_sound t.clouds_path e))
    | inr e ↦ elim (Bool-cases (opts.stuck t.number t.clouds_path)) [
      | inl s ↦ (
        ground (arith, h, e, s),
        λ same. inr (t.number, inl (subst (λ p. opts.stuck t.number p ≡ true) same s)),
      )
      | inr s ↦ elim (Bool-cases (text_eq t.clouds_path p)) [
        | inl q ↦ absurd (ground (arith, h, e, s, q, lookup-delete p t.clouds_path files))
        | inr q ↦ (
          ground (arith, h, e, s, q, lookup-delete p t.clouds_path files),
          λ same. absurd (ground (arith, q, same, text_eq_iff t.clouds_path p)),
        )
      ]
    ]
  ]

  lookup-delete_iff :
      (key : Text) (m : List (Text × Collector C)) (k : Text) (t : Collector C)
      → (lookup k (delete key m) ≡ some t) ↔ ((key ≢ k) × (lookup k m ≡ some t))
  lookup-delete_iff key m k t = elim (Bool-cases (text_eq key k)) [
    | inl q ↦ (
      (λ e. absurd (ground (arith, e, q, lookup-delete k key m))),
      λ (ne, e). absurd (ground (arith, q, ne, text_eq_iff key k)),
    )
    | inr q ↦ (
      (λ e. ground (arith, e, q, lookup-delete k key m, text_eq_iff key k)),
      λ (ne, e). ground (arith, e, q, lookup-delete k key m),
    )
  ]

  pub IsAt-unique : (f : Fleet C) (k : Text) (t u : Collector C) → IsAt f k t → IsAt f k u → t ≡ u
  IsAt-unique f k t u e h = ground (arith, e, h)

  -- A collector is taken out, cancelled and its file removed.
  close_one : Options → Fleet C → Text → Collector C → Fleet C
  close_one opts f key t = record f {
    clusters = delete key f.clusters;
    cancelled = t.number ∷ f.cancelled;
    files = remove_clouds opts t f.files;
  }

  close_one-IsTidy :
      (opts : Options) (f : Fleet C) (key : Text) (t : Collector C)
      → IsAt f key t
      → IsTidy opts f
      → IsTidy opts (close_one opts f key t)
  unfolding close_one
  close_one-IsTidy opts f key t e h =
      let left = lookup-delete_iff key f.clusters in
      record {
        running = λ n lt. elim (h.running n lt) [
          | inl i ↦ inl (inr i)
          | inr (k, u, i, q) ↦ elim (Text_discrete key k) [
            | yes same ↦
                let one : u ≡ t = IsAt-unique f k u t i (subst (λ k. IsAt f k t) same e) in
                inl (inl (sym q ∙ ap (λ (t : Collector C). t.number) one))
            | no ne ↦ inr (k, u, (left k u).1 (ne, i), q)
          ]
        ];
        tracked = λ k u i.
            let (ne, j) = (left k u).0 i in
            let (lt, alive) = h.tracked k u j in
            (lt, elim [ inl q ↦ ne (sym (h.apart k key u t j e q)) | inr c ↦ alive c ]);
        apart = λ k j u w i l q. h.apart k j u w ((left k u).0 i).1 ((left j w).0 l).1 q;
        past = λ n. elim [
          | inl q ↦ subst (λ n. n < f.started) (sym q) (h.tracked key t e).0
          | inr i ↦ h.past n i
        ];
        owned = λ p contents q.
            let (there, spared) = remove_clouds-lookup opts t f.files p contents q in
            elim (h.owned p contents there) [
              | inr bad ↦ inr bad
              | inl (k, u, i, path, ne) ↦ elim (Text_discrete key k) [
                | yes same ↦
                    let one : t ≡ u = IsAt-unique f k t u (subst (λ k. IsAt f k t) same e) i in
                    elim (spared (ap (λ (t : Collector C). t.clouds_path) one ∙ path)) [
                      | inl empty ↦ absurd (ne empty)
                      | inr bad ↦ inr bad
                    ]
                | no other ↦ inl (k, u, (left k u).1 (other, i), path, ne)
              ]
            ];
      }

  missing-IsTidy :
      (opts : Options) (f : Fleet C) (key : Text)
      → lookup key f.clusters ≡ none
      → IsTidy opts f
      → IsTidy opts (record f { clusters = delete key f.clusters })
  missing-IsTidy opts f key e h =
      let left = lookup-delete_iff key f.clusters in
      let kept : (k : Text) (t : Collector C)
          → IsAt f k t
          → lookup k (delete key f.clusters) ≡ some t =
        λ k t i. (left k t).1 ((λ same. absurd (ground (arith, e, i, same))), i) in
      record {
        running = λ n lt. elim (h.running n lt) [
          | inl i ↦ inl i
          | inr (k, t, i, q) ↦ inr (k, t, kept k t i, q)
        ];
        tracked = λ k t i. h.tracked k t ((left k t).0 i).1;
        apart = λ k j t u i l q. h.apart k j t u ((left k t).0 i).1 ((left j u).0 l).1 q;
        past = h.past;
        owned = λ p c q. elim (h.owned p c q) [
          | inl (k, t, i, path, ne) ↦ inl (k, t, kept k t i, path, ne)
          | inr bad ↦ inr bad
        ];
      }

  pub stop-IsTidy :
      (opts : Options) (f : Fleet C) (key : Text) → IsTidy opts f → IsTidy opts (stop opts f key)
  unfolding stop close_one
  stop-IsTidy opts f key h = elim (Option-cases (lookup key f.clusters)) [
    | inl e ↦
        let same : record f { clusters = delete key f.clusters } ≡ stop opts f key =
          ground (arith, e) in
        subst (IsTidy opts) same (missing-IsTidy opts f key e h)
    | inr (t, e) ↦
        let same : close_one opts f key t ≡ stop opts f key = ground (arith, e) in
        subst (IsTidy opts) same (close_one-IsTidy opts f key t e h)
  ]
