-- ===== src/Fleet/Reconcile/Maps.antt =====
-- What the operations on the collectors (internal/fleet/fleet.go, `start` and `stop`) do to one key.
use binnacle.Prelude.{
  ℕ, ◌≤◌, List, [], ◌∷◌, map, Option, none, some, Text, text_eq, text_eq_iff, text_eq_refl, ◌≡◌,
  inl, inr, refl, arith, if◌then◌else◌, is_some, some_of, Option-cases,
}
use binnacle.Store.{lookup, insert}
use binnacle.Fleet.Discover.{Discovered, key_of}
use binnacle.Fleet.Reconcile.{Options, Collector, Fleet, delete, launched, start, stop, stop_each}

module _ {V : Type 0} where
  pub lookup-insert :
      (k j : Text) (v : V) (m : List (Text × V))
      → lookup k (insert j v m) ≡ (if text_eq j k then some v else lookup k m)
  unfolding lookup insert
  lookup-insert k j v [] = refl
  lookup-insert k j v ((i, w) ∷ m) =
      ground (arith, lookup-insert k j v m, text_eq_iff i j, text_eq_iff i k, text_eq_iff j k)

  pub lookup-delete :
      (k j : Text) (m : List (Text × V))
      → lookup k (delete j m) ≡ (if text_eq j k then none else lookup k m)
  unfolding lookup delete
  lookup-delete k j [] = ground arith
  lookup-delete k j ((i, w) ∷ m) =
      ground (arith, lookup-delete k j m, text_eq_iff i j, text_eq_iff i k, text_eq_iff j k)

  -- A key is tracked exactly when it is among the keys.
  pub lookup-missing :
      (k : Text) (m : List (Text × V))
      → some_of (λ j. text_eq j k) (map (λ e. e.0) m) ≡ is_some (lookup k m)
  unfolding lookup
  lookup-missing k [] = refl
  lookup-missing k ((i, w) ∷ m) = ground (arith, lookup-missing k m)

module _ {C : Type 0} where
  -- A collector that has been started since.
  abbrev pub IsFresh : Discovered C → Fleet C → Option (Collector C) → Type 0
  IsFresh d f o = (t : Collector C) × (o ≡ some t) × (t.discovered ≡ d) × (f.started ≤ t.number)

module _ {C : Type 0} (opts : Options) where
  pub discovered-launched :
      (d : Discovered C) (number : ℕ) (files : List (Text × Text))
      → ((launched opts d number files).0.discovered ≡ d)
        × ((launched opts d number files).0.number ≡ number)
  unfolding launched
  discovered-launched d number files = elim (Option-cases d.config) [
    | inl e ↦ ground (arith, e)
    | inr (cfg, e) ↦ ground (arith, e)
  ]

  pub lookup-start :
      (f : Fleet C) (d : Discovered C) (k : Text)
      → lookup k (start opts f d).clusters ≡ (
          if text_eq (key_of d) k
          then some (launched opts d f.started f.files).0
          else lookup k f.clusters)
  unfolding start
  lookup-start f d k = lookup-insert k (key_of d) (launched opts d f.started f.files).0 f.clusters

  pub start-IsFresh :
      (f g : Fleet C) (d : Discovered C)
      → f.started ≤ g.started
      → IsFresh d f (lookup (key_of d) (start opts g d).clusters)
  start-IsFresh f g d h =
      let t = (launched opts d g.started g.files).0 in
      let (same, number) = discovered-launched d g.started g.files in
      (
        t,
        ground (arith, lookup-start g d (key_of d), text_eq_refl (key_of d)),
        same,
        omega (arith, h, number),
      )

module _ {C : Type 0} (opts : Options) where
  pub lookup-stop :
      (f : Fleet C) (j k : Text)
      → lookup k (stop opts f j).clusters ≡ (if text_eq j k then none else lookup k f.clusters)
  unfolding stop
  lookup-stop f j k = elim (Option-cases (lookup j f.clusters)) [
    | inl e ↦ ground (arith, e, lookup-delete k j f.clusters)
    | inr (t, e) ↦ ground (arith, e, lookup-delete k j f.clusters)
  ]

  pub started-stop : (f : Fleet C) (j : Text) → (stop opts f j).started ≡ f.started
  unfolding stop
  started-stop f j = elim (Option-cases (lookup j f.clusters)) [
    | inl e ↦ ground (arith, e)
    | inr (t, e) ↦ ground (arith, e)
  ]

  pub lookup-stop_each :
      (ks : List Text) (f : Fleet C) (k : Text)
      → lookup k (stop_each opts f ks).clusters
        ≡ (if some_of (λ j. text_eq j k) ks then none else lookup k f.clusters)
  unfolding stop_each
  lookup-stop_each [] f k = refl
  lookup-stop_each (j ∷ ks) f k =
      ground (arith, lookup-stop_each ks (stop opts f j) k, lookup-stop f j k)
