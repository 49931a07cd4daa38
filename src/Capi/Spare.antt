-- ===== src/Capi/Spare.antt =====
-- The spare hosts (internal/core/capi/join.go, `UnclaimedHosts`).
use mathlib.Core.Path.{subst}
use binnacle.Prelude.{
  ◌≡◌, refl, sym, ap, ◌≢◌, ◌↔◌, inl, inr, Bool, false, not, List, [], ◌++◌, Text, text_eq,
  text_eq_sound, text_eq_refl, arith, is_empty, is_empty-ne, Bool-cases, keep, some_of, In, In-keep,
  keep-In, In-append, In-append_left, In-append_right, In-map, map-In, In-some_of, some_of-In,
}
use binnacle.Prelude.Orders.{by_last-IsWeakOrder, by_text-IsWeakOrder}
use binnacle.Prelude.Sort.{
  IsSorted, sort_stable-IsSorted, In-sort_stable, sort_stable-In, IsWeakOrder,
}
use binnacle.Model.{Metal3Machine, BareMetalHost}
use binnacle.Capi.{
  qualified, or_namespace, claims_of_machines, claims_of_hosts, host_less, unclaimed_hosts,
}

abbrev pub host_id : BareMetalHost → Text
host_id b = qualified b.namespace b.name

-- The Metal3Machine names a host of this namespace and name.
abbrev pub Claims : Metal3Machine → Text → Type 0
Claims m id =
    (m.bmh_name ≢ []) × (id ≡ qualified (or_namespace m.bmh_namespace m.namespace) m.bmh_name)

-- The host has a consumer, and this namespace and name.
abbrev pub Consumed : BareMetalHost → Text → Type 0
Consumed b id = (b.consumer_name ≢ []) × (id ≡ host_id b)

In-claims_of_machines :
    (ms : List Metal3Machine) (id : Text)
    → In id (claims_of_machines ms) ↔ ((m : Metal3Machine) × In m ms × Claims m id)
unfolding claims_of_machines
In-claims_of_machines ms id = (
  (λ i.
      let (m, k, e) = In-map _ (keep (λ m. not (is_empty m.bmh_name)) ms) id i in
      let (j, ne) = In-keep (λ m. not (is_empty m.bmh_name)) ms m k in
      (m, j, ((λ empty. absurd (ground arith)), e))),
  (λ (m, i, (ne, e)).
      let kept =
        keep-In (λ m. not (is_empty m.bmh_name)) ms m i (rw (is_empty-ne m.bmh_name ne) refl) in
      subst (λ x. In x (claims_of_machines ms)) (sym e)
        (map-In _ (keep (λ m. not (is_empty m.bmh_name)) ms) m kept)),
)

In-claims_of_hosts :
    (bs : List BareMetalHost) (id : Text)
    → In id (claims_of_hosts bs) ↔ ((b : BareMetalHost) × In b bs × Consumed b id)
unfolding claims_of_hosts
In-claims_of_hosts bs id = (
  (λ i.
      let (b, k, e) = In-map _ (keep (λ b. not (is_empty b.consumer_name)) bs) id i in
      let (j, ne) = In-keep (λ b. not (is_empty b.consumer_name)) bs b k in
      (b, j, ((λ empty. absurd (ground arith)), e))),
  (λ (b, i, (ne, e)).
      let kept =
        keep-In (λ b. not (is_empty b.consumer_name)) bs b i
          (rw (is_empty-ne b.consumer_name ne) refl) in
      subst (λ x. In x (claims_of_hosts bs)) (sym e)
        (map-In _ (keep (λ b. not (is_empty b.consumer_name)) bs) b kept)),
)

host_less-IsWeakOrder : IsWeakOrder host_less
host_less-IsWeakOrder = by_text-IsWeakOrder _ (by_last-IsWeakOrder (λ b. b.name)) (λ b. b.namespace)

-- Whether the map `claimed` has the key.
claimed-false : (ids : List Text) (id : Text) → (some_of (text_eq id) ids ≡ false) ↔ (In id ids → ⊥)
claimed-false ids id = (
  (λ h i. absurd (ground (arith, In-some_of (text_eq id) ids id i (text_eq_refl id)))),
  (λ h. elim (Bool-cases (some_of (text_eq id) ids)) [
    | inr e ↦ e
    | inl e ↦
        let (x, i, same) = some_of-In (text_eq id) ids e in
        absurd (h (subst (λ y. In y ids) (sym (text_eq_sound id x same)) i))
  ]),
)

-- A host is reported spare exactly when it is one of the hosts, no Metal3Machine of any cluster names
-- its namespace and name, and no host of this namespace and name has a consumer. The spare hosts
-- stand in the order of namespace and name.
pub unclaimed_hosts_iff :
    (m3ms : List Metal3Machine) (bmhs : List BareMetalHost)
    → IsSorted host_less (unclaimed_hosts m3ms bmhs)
      × ((b : BareMetalHost)
          → In b (unclaimed_hosts m3ms bmhs) ↔ (
              In b bmhs
              × ((m : Metal3Machine) → In m m3ms → Claims m (host_id b) → ⊥)
              × ((c : BareMetalHost) → In c bmhs → Consumed c (host_id b) → ⊥)))
unfolding unclaimed_hosts
unclaimed_hosts_iff m3ms bmhs = (
  sort_stable-IsSorted host_less host_less-IsWeakOrder (keep free bmhs),
  λ b. (
    (λ i.
        let (j, e) = In-keep free bmhs b (In-sort_stable host_less b (keep free bmhs) i) in
        let fresh = (claimed-false claimed (host_id b)).0 (ground arith) in
        (
          j,
          (λ m k c. fresh (
              In-append_left (host_id b) machines hosts
                ((In-claims_of_machines m3ms (host_id b)).1 (m, k, c)))),
          (λ c k u. fresh (
              In-append_right (host_id b) machines hosts
                ((In-claims_of_hosts bmhs (host_id b)).1 (c, k, u)))),
        )),
    (λ (i, by_machine, by_host). sort_stable-In host_less b (keep free bmhs) (
        keep-In free bmhs b i (
          ap not (
            (claimed-false claimed (host_id b)).1 (λ k.
              elim (In-append (host_id b) machines hosts k) [
                | inl l ↦
                    let (m, j, c) = (In-claims_of_machines m3ms (host_id b)).0 l in by_machine m j c
                | inr r ↦ let (c, j, u) = (In-claims_of_hosts bmhs (host_id b)).0 r in by_host c j u
              ]))))),
  ),
)
  where
    machines : List Text
    machines = claims_of_machines m3ms

    hosts : List Text
    hosts = claims_of_hosts bmhs

    claimed : List Text
    claimed = machines ++ hosts

    free : BareMetalHost → Bool
    free b = not (some_of (text_eq (qualified b.namespace b.name)) claimed)
