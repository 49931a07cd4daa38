-- ===== src/Fleet/Tables/Owners.antt =====
-- Which hosts a cluster's page shows (internal/fleet/tables.go, `hostsFor`).
use binnacle.Prelude.{
  ◌+◌, true, List, [], ◌∷◌, ◌≡◌, ◌≢◌, refl, ◌⊎◌, ◌↔◌, inl, inr, arith, Text, text_eq, text_eq_sound,
  text_eq_refl, length, is_empty, is_empty-ne, In, Bool-cases, keep, some_of, some_of-In,
  In-some_of, In-keep, keep-In, In-append, In-append_left, In-append_right, is_empty_sound, sym,
  subst,
}
use binnacle.Model.{Machine, BareMetalHost}
use binnacle.Fleet.Tables.{keys_of_machine, owned_by, is_mine, sift_hosts, hosts_for, slashed}

-- The machine, or the provider's machine behind it, is called `key`.
abbrev pub Called : Machine → Text → Type 0
Called m key =
    (key ≡ slashed m.namespace m.name)
    ⊎ ((m.infra_name ≢ []) × (key ≡ slashed m.namespace m.infra_name))

keys_of_machine_iff : (m : Machine) (key : Text) → In key (keys_of_machine m) ↔ Called m key
unfolding keys_of_machine
keys_of_machine_iff m key = elim (Bool-cases (is_empty m.infra_name)) [
  | inl e ↦
      let none_left : m.infra_name ≡ [] = is_empty_sound m.infra_name e in
      let same : keys_of_machine m ≡ slashed m.namespace m.name ∷ [] = ground (arith, e) in
      (
        (λ i. elim (subst (In key) same i) [ inl f ↦ inl f | inr j ↦ elim j [ ] ]),
        λ c. subst (In key) (sym same) (elim c [ inl f ↦ inl f | inr g ↦ absurd (g.0 none_left) ]),
      )
  | inr e ↦
      let ne : m.infra_name ≢ [] = λ f. absurd (ground (arith, e, f)) in
      let same : keys_of_machine m
          ≡ slashed m.namespace m.infra_name ∷ slashed m.namespace m.name ∷ [] =
        ground (arith, e) in
      (
        (λ i. elim (subst (In key) same i) [
          | inl f ↦ inr (ne, f)
          | inr (inl f) ↦ inl f
          | inr (inr j) ↦ elim j [ ]
        ]),
        λ c. subst (In key) (sym same) (elim c [ inl f ↦ inr (inl f) | inr g ↦ inl g.1 ]),
      )
]

In-owned_by :
    (ms : List Machine) (key : Text) → In key (owned_by ms) → (m : Machine) × In m ms × Called m key
unfolding owned_by
In-owned_by [] key i = elim i [ ]
In-owned_by (m ∷ ms) key i = elim (In-append key (keys_of_machine m) (owned_by ms) i) [
  | inl j ↦ (m, inl refl, (keys_of_machine_iff m key).0 j)
  | inr j ↦ let (n, k, c) = In-owned_by ms key j in (n, inr k, c)
]

owned_by-In :
    (ms : List Machine) (key : Text) (m : Machine) → In m ms → Called m key → In key (owned_by ms)
unfolding owned_by
owned_by-In [] key m i c = elim i [ ]
owned_by-In (n ∷ ms) key m (inl e) c =
    In-append_left key (keys_of_machine n) (owned_by ms)
      ((keys_of_machine_iff n key).1 (subst (λ x. Called x key) e c))
owned_by-In (n ∷ ms) key m (inr i) c =
    In-append_right key (keys_of_machine n) (owned_by ms) (owned_by-In ms key m i c)

sift_hosts_lem :
    (owned : List Text) (hs : List BareMetalHost)
    → ((sift_hosts owned hs).0 ≡ keep (is_mine owned) hs)
      × (length (sift_hosts owned hs).0 + (sift_hosts owned hs).1 ≡ length hs)
unfolding sift_hosts
sift_hosts_lem owned [] = (refl, omega arith)
sift_hosts_lem owned (h ∷ hs) =
    let (e, f) = sift_hosts_lem owned hs in
    elim (Bool-cases (is_mine owned h)) [
      | inl g ↦ ground (arith, e, f, g)
      | inr g ↦ ground (arith, e, f, g)
    ]

-- The hosts of a cluster's page are those of the datacenter that have a consumer which a machine of the
-- cluster, or the provider's machine behind it, is called by; the others are counted, each once.
hosts_for_iff :
    (hosts : List BareMetalHost) (machines : List Machine)
    → (length (hosts_for hosts machines).0 + (hosts_for hosts machines).1 ≡ length hosts)
      × ((h : BareMetalHost)
          → In h (hosts_for hosts machines).0 ↔ (
              In h hosts
              × (h.consumer_name ≢ [])
              × ((m : Machine) × In m machines
                  × Called m (slashed h.consumer_namespace h.consumer_name))))
unfolding hosts_for
hosts_for_iff hosts machines =
    let owned = owned_by machines in
    let (same, count) = sift_hosts_lem owned hosts in
    (
      count,
      λ h.
          let key = slashed h.consumer_namespace h.consumer_name in
          (
            (λ i.
                let (j, mine) = In-keep (is_mine owned) hosts h (subst (In h) same i) in
                let hit : some_of (text_eq key) owned ≡ true = ground (arith, mine) in
                let (k, l, f) = some_of-In (text_eq key) owned hit in
                let (m, x, c) = In-owned_by machines k l in
                (
                  j,
                  (λ e. absurd (ground (arith, mine, e))),
                  (m, x, subst (Called m) (sym (text_eq_sound key k f)) c),
                )),
            λ (j, ne, (m, x, c)).
                let hit =
                  In-some_of (text_eq key) owned key (owned_by-In machines key m x c)
                    (text_eq_refl key) in
                let named = is_empty-ne h.consumer_name ne in
                subst (In h) (sym same)
                  (keep-In (is_mine owned) hosts h j (ground (arith, hit, named))),
          ),
    )
