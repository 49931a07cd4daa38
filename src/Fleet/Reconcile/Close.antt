-- ===== src/Fleet/Reconcile/Close.antt =====
-- What is left of the collectors and of the files of credentials (internal/fleet/fleet.go, `reconcile`,
-- `stopAll` and `Run`).
use binnacle.Prelude.{
  ℕ, ◌<◌, List, [], ◌∷◌, none, some, Text, text_eq, text_eq_refl, ◌≡◌, ◌⊎◌, inl, inr, refl, arith,
  sym, ap, subst, ◌∙◌, Bool-cases, Option-cases, In,
}
use binnacle.Store.{lookup}
use binnacle.Fleet.Discover.{Discovered, key_of}
use binnacle.Fleet.Reconcile.{
  Options, Collector, Fleet, Management, watching, dismissed, new, start_management, remove_clouds,
  start, stop, stop_each, is_upgrade, visit, visit_all, gone, reconcile, tick_all, end_each,
  stop_all, run,
}
use binnacle.Fleet.Reconcile.Maps.{lookup-stop}
use binnacle.Fleet.Reconcile.Tidy.{IsSpoiled, IsTidy, new-IsTidy, stop-IsTidy, remove_clouds-lookup}
use binnacle.Fleet.Reconcile.Leaks.{start-IsTidy}

module _ {C : Type 0} (opts : Options) where
  visit-IsTidy : (f : Fleet C) (d : Discovered C) → IsTidy opts f → IsTidy opts (visit opts f d)
  unfolding visit
  visit-IsTidy f d h = elim (Option-cases (lookup (key_of d) f.clusters)) [
    | inl e ↦
        let same : start opts f d ≡ visit opts f d = ground (arith, e) in
        subst (IsTidy opts) same (start-IsTidy opts f d e h)
    | inr (t, e) ↦ elim (Bool-cases (is_upgrade t.discovered d)) [
      | inl u ↦
          let same : start opts (stop opts f (key_of d)) d ≡ visit opts f d =
            ground (arith, e, u) in
          let free : lookup (key_of d) (stop opts f (key_of d)).clusters ≡ none =
            ground (arith, lookup-stop opts f (key_of d) (key_of d), text_eq_refl (key_of d)) in
          subst (IsTidy opts) same
            (start-IsTidy opts (stop opts f (key_of d)) d free (stop-IsTidy opts f (key_of d) h))
      | inr u ↦ let same : f ≡ visit opts f d = ground (arith, e, u) in subst (IsTidy opts) same h
    ]
  ]

  visit_all-IsTidy :
      (ds : List (Discovered C)) (f : Fleet C) → IsTidy opts f → IsTidy opts (visit_all opts f ds)
  unfolding visit_all
  visit_all-IsTidy [] f h = h
  visit_all-IsTidy (d ∷ ds) f h = visit_all-IsTidy ds (visit opts f d) (visit-IsTidy f d h)

  stop_each-IsTidy :
      (ks : List Text) (f : Fleet C) → IsTidy opts f → IsTidy opts (stop_each opts f ks)
  unfolding stop_each
  stop_each-IsTidy [] f h = h
  stop_each-IsTidy (k ∷ ks) f h = stop_each-IsTidy ks (stop opts f k) (stop-IsTidy opts f k h)

  reconcile-IsTidy :
      (f : Fleet C) (l : Text ⊎ List (Discovered C))
      → IsTidy opts f
      → IsTidy opts (reconcile opts f l).0
  unfolding reconcile
  reconcile-IsTidy f (inl e) h = h
  reconcile-IsTidy f (inr ds) h =
      let g = visit_all opts f ds in
      let r = stop_each-IsTidy (gone g ds) g (visit_all-IsTidy ds f h) in
      record {
        running = r.running;
        tracked = r.tracked;
        apart = r.apart;
        past = r.past;
        owned = r.owned;
      }

  -- Over any sequence of ticks a fleet stays tidy: a collector that has been started runs for a tracked
  -- cluster or has been cancelled, and never both, two clusters have two collectors, and a file of
  -- credentials belongs to a tracked cluster, unless the system has refused to write or to remove it.
  pub tick_all-IsTidy :
      (ls : List (Text ⊎ List (Discovered C))) (f : Fleet C)
      → IsTidy opts f
      → IsTidy opts (tick_all opts f ls)
  unfolding tick_all
  tick_all-IsTidy [] f h = h
  tick_all-IsTidy (l ∷ ls) f h = tick_all-IsTidy ls (reconcile opts f l).0 (reconcile-IsTidy f l h)

module _ {C : Type 0} (opts : Options) where
  -- Every collector that has been started is cancelled, no cluster is tracked, and a file is left only
  -- where the system has refused to write or to remove it.
  abbrev pub IsClosed : Fleet C → Type 0
  IsClosed f =
      ((n : ℕ) → n < f.started → In n f.cancelled)
      × ((p c : Text) → lookup p f.files ≡ some c → IsSpoiled opts p)
      × ((k : Text) → lookup k f.clusters ≡ none)

  -- What ending some collectors does.
  abbrev pub IsEnding : List (Text × Collector C) → Fleet C → Fleet C → Type 0
  IsEnding ts f g =
      (g.started ≡ f.started)
      × (g.clusters ≡ f.clusters)
      × ((n : ℕ) → In n f.cancelled → In n g.cancelled)
      × ((k : Text) (t : Collector C) → lookup k ts ≡ some t → In t.number g.cancelled)
      × ((p c : Text)
          → lookup p g.files ≡ some c
          → (lookup p f.files ≡ some c)
            × ((k : Text) (t : Collector C)
                → lookup k ts ≡ some t
                → t.clouds_path ≡ p
                → (p ≡ []) ⊎ IsSpoiled opts p))

  end_each-IsEnding :
      (ts : List (Text × Collector C)) (f : Fleet C) → IsEnding ts f (end_each opts ts f)
  unfolding end_each lookup
  end_each-IsEnding [] f = (
    refl,
    refl,
    (λ n i. i),
    (λ k t e. absurd (ground (arith, e))),
    λ p c h. (h, λ k t e. absurd (ground (arith, e))),
  )
  end_each-IsEnding ((j, u) ∷ ts) f =
      let f' = record f {
        cancelled = u.number ∷ f.cancelled;
        files = remove_clouds opts u f.files;
      } in
      let (started, clusters, older, ended, files) = end_each-IsEnding ts f' in
      (
        started,
        clusters,
        (λ n i. older n (inr i)),
        (λ k t e. elim (Bool-cases (text_eq j k)) [
          | inl q ↦
              let same : u ≡ t = ground (arith, e, q) in
              older t.number (inl (ap (λ (t : Collector C). t.number) (sym same)))
          | inr q ↦ ended k t (ground (arith, e, q))
        ]),
        λ p c h.
            let (there, spared) = files p c h in
            let (there', spared') = remove_clouds-lookup opts u f.files p c there in
            (
              there',
              λ k t e path. elim (Bool-cases (text_eq j k)) [
                | inl q ↦
                    let same : u ≡ t = ground (arith, e, q) in
                    spared' (ap (λ (t : Collector C). t.clouds_path) same ∙ path)
                | inr q ↦ spared k t (ground (arith, e, q)) path
              ],
            ),
      )

  stop_all-IsClosed : (f : Fleet C) → IsTidy opts f → IsClosed (stop_all opts f)
  unfolding stop_all lookup
  stop_all-IsClosed f h =
      let (started, clusters, older, ended, files) =
        end_each-IsEnding f.clusters (record f { clusters = [] }) in
      (
        (λ n lt. elim (h.running n (subst (λ s. n < s) started lt)) [
          | inl i ↦ older n i
          | inr (k, t, i, q) ↦ subst (λ n. In n (stop_all opts f).cancelled) q (ended k t i)
        ]),
        (λ p c e.
            let (there, spared) = files p c e in
            elim (h.owned p c there) [
              | inr bad ↦ bad
              | inl (k, t, i, path, ne) ↦ elim (spared k t i path) [
                | inl empty ↦ absurd (ne empty)
                | inr bad ↦ bad
              ]
            ]),
        λ k. ap (lookup k) clusters,
      )

module _ {C : Type 0} (opts : Options) where
  -- How `Run` leaves the collector of the management cluster.
  abbrev pub left_as : Text ⊎ List (Discovered C) → Management
  left_as (inl e) = watching
  left_as (inr ds) = dismissed

  -- When `Run` has been cancelled after any ticks, every collector that it has started is cancelled, that
  -- of the management cluster too, no cluster is tracked, and a file of credentials is left only where
  -- the system has refused to write or to remove it. Where the first list fails, `Run` ends with no
  -- other collector started, but leaves that of the management cluster running.
  pub run-IsClosed :
      (canceled : Text) (first : Text ⊎ List (Discovered C))
      (ticks : List (Text ⊎ List (Discovered C)))
      → IsClosed opts (run opts canceled first ticks).0
        × ((run opts canceled first ticks).0.management ≡ left_as first)
  unfolding run reconcile new start_management lookup
  run-IsClosed canceled (inl e) ticks = (
    ((λ n lt. absurd (omega (arith, lt))), (λ p c h. absurd (ground (arith, h))), λ k. refl),
    refl,
  )
  run-IsClosed canceled (inr ds) ticks =
      let f = (reconcile opts (start_management new) (inr ds)).0 in
      let (all, files, none_left) = stop_all-IsClosed opts (tick_all opts f ticks) (
        tick_all-IsTidy opts ticks f
          (reconcile-IsTidy opts (start_management new) (inr ds) (new-IsTidy opts))) in
      ((all, files, none_left), refl)
