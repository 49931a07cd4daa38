-- ===== src/Health/Pins.antt =====
-- The pinned workloads against the pods that belong to them (pkg/health/pinned.go).
use binnacle.Prelude.{
  text, text_eq, text_eq_iff, has_prefix, ◌++◌, ℕ, ◌+◌, ◌≡◌, ◌↔◌, Bool, true, false, List, [], ◌∷◌,
  arith, not, ◌&&◌, count_if, some_of, some_of-count, ◌∙◌,
}
use binnacle.Model.{Pod}
use binnacle.Profile.{CriticalWorkload, matches}
use binnacle.Health.{healthy, warn, broken, pin_status, pin_of, count_pods}

-- A pod belongs to a pinned workload by its namespace and by the name and dash that its own name begins
-- with.
abbrev pub member : CriticalWorkload → Pod → Bool
member w p = text_eq p.namespace w.namespace && has_prefix p.name (w.name ++ text "-")

abbrev pub well : CriticalWorkload → Pod → Bool
well w p = member w p && p.is_healthy

abbrev pub ill : CriticalWorkload → Pod → Bool
ill w p = member w p && not p.is_healthy

count_pods_lem :
    (w : CriticalWorkload) (pods : List Pod) (ready desired : ℕ)
    → count_pods w pods ready desired
      ≡ (ready + count_if (well w) pods, desired + count_if (member w) pods)
unfolding count_pods matches
count_pods_lem w [] ready desired = ground arith
count_pods_lem w (p ∷ pods) ready desired =
    count_pods_lem w pods _ _
    ∙ ground (arith, text_eq_iff p.namespace w.namespace, text_eq_iff w.namespace p.namespace)

parts :
    (w : CriticalWorkload) (pods : List Pod)
    → count_if (well w) pods + count_if (ill w) pods ≡ count_if (member w) pods
parts w [] = omega arith
parts w (p ∷ pods) = ground (arith, parts w pods)

-- The report on a pinned workload counts the pods that belong to it and those of them that are
-- healthy; its status is err exactly when no pod belongs to it, warn
-- exactly when one that belongs to it is not healthy, and ok exactly when some belong to it and all
-- of these are healthy.
pub pin_of-status :
    (pods : List Pod) (w : CriticalWorkload)
    → let pin = pin_of pods w in
      (pin.desired ≡ count_if (member w) pods)
      × (pin.ready ≡ count_if (well w) pods)
      × ((pin_status pin ≡ broken) ↔ (some_of (member w) pods ≡ false))
      × ((pin_status pin ≡ warn) ↔ (some_of (ill w) pods ≡ true))
      × ((pin_status pin ≡ healthy)
          ↔ ((some_of (member w) pods ≡ true) × (some_of (ill w) pods ≡ false)))
unfolding pin_of pin_status
pin_of-status pods w =
    let counts = count_pods_lem w pods 0 0 in
    let split = parts w pods in
    rw (counts, some_of-count (member w) pods, some_of-count (ill w) pods)
      (
        ground arith,
        ground arith,
        (ground arith, ground arith),
        (ground arith, ground arith),
        (ground arith, ground arith),
      )
