-- ===== src/Fleet/Reconcile/Agree.antt =====
-- What a tick does to the collectors (internal/fleet/fleet.go, `reconcile`), and the plain map that they
-- implement.
use binnacle.Prelude.{
  ◌≤◌, Bool, true, false, not, ◌&&◌, List, [], ◌∷◌, map, Option, none, some, Text, text_eq,
  text_eq_iff, text_eq_sound, ◌≡◌, ◌≢◌, inl, inr, refl, arith, sym, subst, ◌∙◌, if◌then◌else◌,
  is_some, some_of, keep, Bool-cases, Option-cases, In, Distinct,
}
use binnacle.Store.{lookup}
use binnacle.Fleet.Discover.{Discovered, key_of}
use binnacle.Fleet.Reconcile.{
  Options, Collector, Fleet, start, stop, is_upgrade, visit, visit_all, gone, reconcile,
}
use binnacle.Fleet.Reconcile.Maps.{
  lookup-missing, IsFresh, lookup-start, start-IsFresh, lookup-stop, started-stop, lookup-stop_each,
}

some_of-keep :
    (seen : Text → Bool) (ks : List Text) (k : Text)
    → some_of (λ j. text_eq j k) (keep (λ j. not (seen j)) ks)
      ≡ (not (seen k) && some_of (λ j. text_eq j k) ks)
some_of-keep seen [] k = ground arith
some_of-keep seen (j ∷ ks) k = ground (arith, some_of-keep seen ks k, text_eq_iff j k)

module _ {C : Type 0} where
  -- The cluster with a key, in a list of clusters.
  unfoldable pub find : Text → List (Discovered C) → Option (Discovered C)
  find k [] = none
  find k (d ∷ ds) = if text_eq (key_of d) k then some d else find k ds

  -- What should become of a collector with the one configuration, when a cluster with the other is found.
  abbrev pub IsFirst :
      Fleet C → Discovered C → Collector C → Option C → Option C → Option (Collector C) → Type 0
  IsFirst f d t (some c) q o = o ≡ some t
  IsFirst f d t none none o = o ≡ some t
  IsFirst f d t none (some c) o = IsFresh d f o

  IsFirst-kept :
      (f : Fleet C) (d : Discovered C) (t : Collector C) (o : Option (Collector C)) (p q : Option C)
      → (not (is_some p) && is_some q) ≡ false
      → o ≡ some t
      → IsFirst f d t p q o
  IsFirst-kept f d t o (some c) q h e = e
  IsFirst-kept f d t o none none h e = e
  IsFirst-kept f d t o none (some c) h e = absurd (ground (arith, h))

  IsFirst-fresh :
      (f : Fleet C) (d : Discovered C) (t : Collector C) (o : Option (Collector C)) (p q : Option C)
      → (not (is_some p) && is_some q) ≡ true
      → IsFresh d f o
      → IsFirst f d t p q o
  IsFirst-fresh f d t o (some c) q h e = absurd (ground (arith, h))
  IsFirst-fresh f d t o none none h e = absurd (ground (arith, h))
  IsFirst-fresh f d t o none (some c) h e = e

  -- What should become of a collector, given the cluster that was found under its key: it goes on as it
  -- is, unless it has no configuration and there is one now.
  abbrev pub IsTracking :
      Fleet C → Discovered C → Option (Collector C) → Option (Collector C) → Type 0
  IsTracking f d none o = IsFresh d f o
  IsTracking f d (some t) o = IsFirst f d t t.discovered.config d.config o

  abbrev pub IsSettled :
      Fleet C → Option (Discovered C) → Option (Collector C) → Option (Collector C) → Type 0
  IsSettled f none before after = after ≡ none
  IsSettled f (some d) before after = IsTracking f d before after

  find-missing :
      (ds : List (Discovered C)) (k : Text) → (In k (map key_of ds) → ⊥) → find k ds ≡ none
  unfolding find
  find-missing [] k h = refl
  find-missing (d ∷ ds) k h =
      let ne : key_of d ≢ k = λ e. h (inl (sym e)) in
      ground (arith, find-missing ds k (λ i. h (inr i)), text_eq_iff (key_of d) k, ne)

  some_of-find :
      (ds : List (Discovered C)) (k : Text)
      → some_of (λ d. text_eq (key_of d) k) ds ≡ is_some (find k ds)
  unfolding find
  some_of-find [] k = refl
  some_of-find (d ∷ ds) k = ground (arith, some_of-find ds k)

  some_of-gone :
      (f : Fleet C) (ds : List (Discovered C)) (k : Text)
      → some_of (λ j. text_eq j k) (gone f ds)
        ≡ (not (is_some (find k ds)) && is_some (lookup k f.clusters))
  unfolding gone
  some_of-gone f ds k = ground (
    arith,
    some_of-keep (λ j. some_of (λ d. text_eq (key_of d) j) ds) (map (λ e. e.0) f.clusters) k,
    some_of-find ds k,
    lookup-missing k f.clusters,
  )

module _ {C : Type 0} (opts : Options) where
  IsFresh-le :
      (f g : Fleet C) (d : Discovered C) (o : Option (Collector C))
      → f.started ≤ g.started
      → IsFresh d g o
      → IsFresh d f o
  IsFresh-le f g d o h (t, e, same, le) = (t, e, same, omega (arith, h, le))

  IsFirst-le :
      (f g : Fleet C) (d : Discovered C) (t : Collector C) (after : Option (Collector C))
      (p q : Option C)
      → f.started ≤ g.started
      → IsFirst g d t p q after
      → IsFirst f d t p q after
  IsFirst-le f g d t after (some c) q h i = i
  IsFirst-le f g d t after none none h i = i
  IsFirst-le f g d t after none (some c) h i = IsFresh-le f g d after h i

  IsTracking-le :
      (f g : Fleet C) (d : Discovered C) (before after : Option (Collector C))
      → f.started ≤ g.started
      → IsTracking g d before after
      → IsTracking f d before after
  IsTracking-le f g d none after h i = IsFresh-le f g d after h i
  IsTracking-le f g d (some t) after h i = IsFirst-le f g d t after t.discovered.config d.config h i

  visit-other :
      (f : Fleet C) (d : Discovered C) (k : Text)
      → text_eq (key_of d) k ≡ false
      → lookup k (visit opts f d).clusters ≡ lookup k f.clusters
  unfolding visit
  visit-other f d k h = elim (Option-cases (lookup (key_of d) f.clusters)) [
    | inl e ↦ ground (arith, e, h, lookup-start opts f d k)
    | inr (t, e) ↦ ground (
      arith,
      e,
      h,
      lookup-start opts (stop opts f (key_of d)) d k,
      lookup-stop opts f (key_of d) k,
    )
  ]

  visit-same_step :
      (f : Fleet C) (d : Discovered C) (o : Option (Collector C))
      → lookup (key_of d) f.clusters ≡ o
      → IsTracking f d o (lookup (key_of d) (visit opts f d).clusters)
  unfolding visit
  visit-same_step f d none e =
      let same : start opts f d ≡ visit opts f d = ground (arith, e) in
      subst (λ (g : Fleet C). IsFresh d f (lookup (key_of d) g.clusters)) same
        (start-IsFresh opts f f d (omega arith))
  visit-same_step f d (some t) e = elim (Bool-cases (is_upgrade t.discovered d)) [
    | inl u ↦
        let same : start opts (stop opts f (key_of d)) d ≡ visit opts f d = ground (arith, e, u) in
        IsFirst-fresh f d t (lookup (key_of d) (visit opts f d).clusters) t.discovered.config
          d.config (unfold is_upgrade in u)
          (subst (λ (g : Fleet C). IsFresh d f (lookup (key_of d) g.clusters)) same
            (start-IsFresh opts f (stop opts f (key_of d)) d
              (omega (arith, started-stop opts f (key_of d)))))
    | inr u ↦
        let same : f ≡ visit opts f d = ground (arith, e, u) in
        IsFirst-kept f d t (lookup (key_of d) (visit opts f d).clusters) t.discovered.config
          d.config (unfold is_upgrade in u)
          (subst (λ (g : Fleet C). lookup (key_of d) g.clusters ≡ some t) same e)
  ]

  visit-started : (f : Fleet C) (d : Discovered C) → f.started ≤ (visit opts f d).started
  unfolding visit start
  visit-started f d = elim (Option-cases (lookup (key_of d) f.clusters)) [
    | inl e ↦ ground (arith, e)
    | inr (t, e) ↦ ground (arith, e, started-stop opts f (key_of d))
  ]

  visit_all-other :
      (ds : List (Discovered C)) (f : Fleet C) (k : Text)
      → find k ds ≡ none
      → lookup k (visit_all opts f ds).clusters ≡ lookup k f.clusters
  unfolding visit_all find
  visit_all-other [] f k h = refl
  visit_all-other (d ∷ ds) f k h = elim (Bool-cases (text_eq (key_of d) k)) [
    | inl e ↦ absurd (ground (arith, h, e))
    | inr e ↦ visit_all-other ds (visit opts f d) k (ground (arith, h, e)) ∙ visit-other f d k e
  ]

  visit_all-found :
      (ds : List (Discovered C)) (f : Fleet C) (k : Text) (d : Discovered C)
      → Distinct (map key_of ds)
      → find k ds ≡ some d
      → IsTracking f d (lookup k f.clusters) (lookup k (visit_all opts f ds).clusters)
  unfolding visit_all find
  visit_all-found [] f k d u h = absurd (ground (arith, h))
  visit_all-found (d' ∷ ds) f k d u h = elim (Bool-cases (text_eq (key_of d') k)) [
    | inl e ↦
        let same : d' ≡ d = ground (arith, h, e) in
        let here : key_of d' ≡ k = text_eq_sound (key_of d') k e in
        let rest : lookup k (visit opts f d').clusters
            ≡ lookup k (visit_all opts (visit opts f d') ds).clusters =
          sym (
            visit_all-other ds (visit opts f d') k
              (find-missing ds k (subst (λ k. In k (map key_of ds) → ⊥) here u.0))) in
        subst (IsTracking f d (lookup k f.clusters)) rest (
          subst (λ d. IsTracking f d (lookup k f.clusters) (lookup k (visit opts f d').clusters))
            same
            (subst
              (λ k. IsTracking f d' (lookup k f.clusters) (lookup k (visit opts f d').clusters))
              here (visit-same_step f d' (lookup (key_of d') f.clusters) refl)))
    | inr e ↦
        subst (λ o. IsTracking f d o (lookup k (visit_all opts (visit opts f d') ds).clusters))
          (visit-other f d' k e)
          (IsTracking-le f (visit opts f d') d (lookup k (visit opts f d').clusters)
            (lookup k (visit_all opts (visit opts f d') ds).clusters) (visit-started f d')
            (visit_all-found ds (visit opts f d') k d u.1 (ground (arith, h, e))))
  ]

  lookup-reconcile :
      (f : Fleet C) (ds : List (Discovered C)) (k : Text)
      → lookup k (reconcile opts f (inr ds)).0.clusters
        ≡ (if is_some (find k ds) then lookup k (visit_all opts f ds).clusters else none)
  unfolding reconcile
  lookup-reconcile f ds k =
      let g = visit_all opts f ds in
      ground (arith, lookup-stop_each opts (gone g ds) g k, some_of-gone g ds k)

  -- After a tick whose list names no cluster twice, a key that is not in the list has no collector, and
  -- a key that is in it has one: the same collector as before, as it was, unless there was none or it
  -- had no configuration and there is one now, and then one that has been started in this tick for
  -- what was found.
  pub reconcile-IsSettled :
      (f : Fleet C) (ds : List (Discovered C)) (k : Text)
      → Distinct (map key_of ds)
      → IsSettled f
          (find k ds)
          (lookup k f.clusters)
          (lookup k (reconcile opts f (inr ds)).0.clusters)
  reconcile-IsSettled f ds k u = elim (Option-cases (find k ds)) [
    | inl e ↦
        let missing : lookup k (reconcile opts f (inr ds)).0.clusters ≡ none =
          ground (arith, e, lookup-reconcile f ds k) in
        subst
          (λ o.
            IsSettled f o (lookup k f.clusters) (lookup k (reconcile opts f (inr ds)).0.clusters))
          (sym e) missing
    | inr (d, e) ↦
        let same : lookup k (visit_all opts f ds).clusters
            ≡ lookup k (reconcile opts f (inr ds)).0.clusters =
          ground (arith, e, lookup-reconcile f ds k) in
        subst
          (λ o.
            IsSettled f o (lookup k f.clusters) (lookup k (reconcile opts f (inr ds)).0.clusters))
          (sym e) (subst (IsTracking f d (lookup k f.clusters)) same (visit_all-found ds f k d u e))
  ]
