-- ===== src/Fleet/Reconcile/Refines.antt =====
-- The collectors of a fleet as the plain map that they implement (internal/fleet/fleet.go, `Run`).
use binnacle.Prelude.{
  List, [], ◌∷◌, map, Option, none, some, Text, ◌≡◌, ◌⊎◌, inl, inr, refl, ap, ◌∙◌, Distinct,
}
use mathlib.Core.Path.{fun_ext}
use binnacle.Store.{lookup}
use binnacle.Fleet.Discover.{Discovered, key_of}
use binnacle.Fleet.Reconcile.{Options, Collector, Fleet, reconcile, tick_all}
use binnacle.Fleet.Reconcile.Agree.{find, IsFirst, IsSettled, IsTracking, reconcile-IsSettled}

module _ {C : Type 0} where
  -- What has been discovered of the cluster that a collector is for.
  abbrev pub tracked_as : Option (Collector C) → Option (Discovered C)
  tracked_as none = none
  tracked_as (some t) = some t.discovered

  abbrev pub tracks : Fleet C → Text → Option (Discovered C)
  tracks f k = tracked_as (lookup k f.clusters)

  -- The second only if it has a configuration and the first has none.
  abbrev pub first_config : Option C → Option C → Discovered C → Discovered C → Discovered C
  first_config (some c) q old d = old
  first_config none none old d = old
  first_config none (some c) old d = d

  -- What a tick should do to a map of clusters: those found are in it, as they were before, if there
  -- was a configuration then or there is none now.
  abbrev pub renewed : Option (Discovered C) → Discovered C → Discovered C
  renewed none d = d
  renewed (some old) d = first_config old.config d.config old d

  abbrev pub among :
      (Text → Option (Discovered C)) → Text → Option (Discovered C) → Option (Discovered C)
  among m k none = none
  among m k (some d) = some (renewed (m k) d)

  abbrev pub replay :
      List (Text ⊎ List (Discovered C))
      → (Text → Option (Discovered C))
      → Text
      → Option (Discovered C)
  replay [] m = m
  replay (inl e ∷ ls) m = replay ls m
  replay (inr ds ∷ ls) m = replay ls (λ k. among m k (find k ds))

  -- No list names a cluster twice.
  abbrev pub AreListings : List (Text ⊎ List (Discovered C)) → Type 0
  AreListings [] = Unit
  AreListings (inl e ∷ ls) = AreListings ls
  AreListings (inr ds ∷ ls) = Distinct (map key_of ds) × AreListings ls

  tracked-IsFirst :
      (f : Fleet C) (d : Discovered C) (t : Collector C) (after : Option (Collector C))
      (p q : Option C)
      → IsFirst f d t p q after
      → tracked_as after ≡ some (first_config p q t.discovered d)
  tracked-IsFirst f d t after (some c) q h = ap tracked_as h
  tracked-IsFirst f d t after none none h = ap tracked_as h
  tracked-IsFirst f d t after none (some c) (t', e, same, le) = ap tracked_as e ∙ ap some same

  tracked-IsTracking :
      (f : Fleet C) (d : Discovered C) (before after : Option (Collector C))
      → IsTracking f d before after
      → tracked_as after ≡ some (renewed (tracked_as before) d)
  tracked-IsTracking f d none after (t, e, same, le) = ap tracked_as e ∙ ap some same
  tracked-IsTracking f d (some t) after h =
      tracked-IsFirst f d t after t.discovered.config d.config h

  tracked-IsSettled :
      (f : Fleet C) (k : Text) (o : Option (Discovered C)) (after : Option (Collector C))
      → IsSettled f o (lookup k f.clusters) after
      → tracked_as after ≡ among (tracks f) k o
  tracked-IsSettled f k none after h = ap tracked_as h
  tracked-IsSettled f k (some d) after h = tracked-IsTracking f d (lookup k f.clusters) after h

module _ {C : Type 0} (opts : Options) where
  -- Over any sequence of ticks whose lists name no cluster twice, failed lists among them, the fleet
  -- tracks what the plain map has after the same sequence: each list decides which clusters there are,
  -- a cluster stays as it was first found until a configuration for it turns up, and a failed list
  -- changes nothing.
  pub tick_all_refines :
      (ls : List (Text ⊎ List (Discovered C))) (f : Fleet C)
      → AreListings ls
      → tracks (tick_all opts f ls) ≡ replay ls (tracks f)
  unfolding tick_all
  tick_all_refines [] f h = refl
  tick_all_refines (inl e ∷ ls) f h = tick_all_refines ls f h
  tick_all_refines (inr ds ∷ ls) f h =
      let f' = (reconcile opts f (inr ds)).0 in
      let step : tracks f' ≡ (λ k. among (tracks f) k (find k ds)) = fun_ext (λ k.
        tracked-IsSettled f k (find k ds) (lookup k f'.clusters)
          (reconcile-IsSettled opts f ds k h.0)) in
      tick_all_refines ls f' h.1 ∙ ap (replay ls) step
