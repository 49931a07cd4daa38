-- ===== src/Capi/Bound.antt =====
-- Which host a row has (internal/core/capi/join.go, `Join`): the forward path by the annotation, and
-- the reverse path by the host's consumer reference.
use binnacle.Prelude.{
  ◌≡◌, refl, sym, ap, ◌∙◌, ◌≢◌, ◌↔◌, Text, text, ◌⊎◌, inl, inr, true, not, ◌&&◌, List, [], ◌∷◌,
  Option, none, some, text_eq, text_eq_sound, text_eq_refl, arith, is_empty, Bool-cases,
  Option-cases, In, In-keep, keep-In, keep, is_empty-ne,
}
use binnacle.Model.{Machine, Metal3Machine, BareMetalHost}
use binnacle.Capi.{
  RoleFunc, NsName, same_name, find, m3m_by_name, bmh_by_name, bmh_by_consumer, index_by, m3m_key,
  bmh_key, consumer_key, or_namespace, is_consumed, or_else, forward_host, infra_of, host_of,
  row_of, metal3_machine_kind,
}

find-In :
    {V : Type 0} (k : NsName) (m : List (NsName × V)) (v : V) → find k m ≡ some v → In (k, v) m
find-In k [] v h = absurd (ground arith)
find-In k ((j, w) ∷ m) v h = elim (Bool-cases (same_name j k)) [
  | inl e ↦ inl (ground (arith, text_eq_sound j.0 k.0, text_eq_sound j.1 k.1))
  | inr e ↦ inr (find-In k m v (ground arith))
]

find-some :
    {V : Type 0} (k : NsName) (v : V) (m : List (NsName × V))
    → In (k, v) m
    → (w : V) × (find k m ≡ some w)
find-some k v [] i = elim i [ ]
find-some k v ((j, w) ∷ m) i = elim (Bool-cases (same_name j k)) [
  | inl e ↦ (w, rw e refl)
  | inr e ↦ elim i [
    | inl same ↦ absurd (ground (arith, text_eq_refl k.0, text_eq_refl k.1))
    | inr l ↦ let (u, found) = find-some k v m l in (u, rw e found)
  ]
]

module _ {V : Type 0} (key : V → NsName) where
  index_by-In :
      (vs : List V) (acc : List (NsName × V)) (k : NsName) (v : V)
      → In (k, v) (index_by key vs acc)
      → In (k, v) acc ⊎ (In v vs × (k ≡ key v))
  unfolding index_by
  index_by-In [] acc k v i = inl i
  index_by-In (x ∷ vs) acc k v i = elim (index_by-In vs ((key x, x) ∷ acc) k v i) [
    | inl (inl e) ↦
        let here : v ≡ x = ap (λ (p : NsName × V). p.1) e in
        inr (inl here, ap (λ (p : NsName × V). p.0) e ∙ ap key (sym here))
    | inl (inr old) ↦ inl old
    | inr (l, e) ↦ inr (inr l, e)
  ]

  index_by-keeps :
      (vs : List V) (acc : List (NsName × V)) (k : NsName) (v : V)
      → In (k, v) acc
      → In (k, v) (index_by key vs acc)
  unfolding index_by
  index_by-keeps [] acc k v i = i
  index_by-keeps (x ∷ vs) acc k v i = index_by-keeps vs ((key x, x) ∷ acc) k v (inr i)

  index_by-has :
      (vs : List V) (acc : List (NsName × V)) (v : V)
      → In v vs
      → In (key v, v) (index_by key vs acc)
  unfolding index_by
  index_by-has [] acc v i = elim i [ ]
  index_by-has (x ∷ vs) acc v (inl e) =
      index_by-keeps vs ((key x, x) ∷ acc) (key v) v (inl (rw e refl))
  index_by-has (x ∷ vs) acc v (inr i) = index_by-has vs ((key x, x) ∷ acc) v i

  -- A lookup in the map answers an element with that key, and answers if there is one.
  find-index_by_sound :
      (vs : List V) (k : NsName) (v : V)
      → find k (index_by key vs []) ≡ some v
      → In v vs × (k ≡ key v)
  find-index_by_sound vs k v h = elim (index_by-In vs [] k v (find-In k _ v h)) [
    | inl none_yet ↦ elim none_yet [ ]
    | inr found ↦ found
  ]

  find-index_by_complete :
      (vs : List V) (v : V) → In v vs → (w : V) × (find (key v) (index_by key vs []) ≡ some w)
  find-index_by_complete vs v i = find-some (key v) v _ (index_by-has vs [] v i)

-- The namespace is the one that is given, or the default where none is given.
abbrev pub IsNamespace : Text → Text → Text → Type 0
IsNamespace given default ns = ((given ≢ []) × (ns ≡ given)) ⊎ ((given ≡ []) × (ns ≡ default))

or_namespace_iff :
    (given default ns : Text) → (ns ≡ or_namespace given default) ↔ IsNamespace given default ns
or_namespace_iff [] default ns =
    ((λ e. inr (refl, e)), elim [ inl h ↦ absurd (h.0 refl) | inr h ↦ h.1 ])
or_namespace_iff (c ∷ given) default ns = (
  (λ e. inl ((λ q. absurd (ground (arith, q))), e)),
  elim [ inl h ↦ h.1 | inr h ↦ absurd (ground (arith, h.0)) ],
)

is_consumed_iff :
    (b : BareMetalHost)
    → (is_consumed b ≡ true) ↔ ((b.consumer_kind ≡ text "Metal3Machine") × (b.consumer_name ≢ []))
unfolding text_eq
is_consumed_iff b = (
  (λ e. (
    text_eq_sound b.consumer_kind (text "Metal3Machine") (ground (arith, e)),
    λ q. absurd (ground (arith, e, q)),
  )),
  λ (kind, ne). rw (kind, is_empty-ne b.consumer_name ne) refl,
)

-- The Metal3Machine names the host by its annotation.
abbrev pub Names : Metal3Machine → BareMetalHost → Type 0
Names m b =
    (m.bmh_name ≢ []) × (b.name ≡ m.bmh_name) × IsNamespace m.bmh_namespace m.namespace b.namespace

-- The host points back at the Metal3Machine by its consumer reference.
abbrev pub PointsBack : BareMetalHost → Metal3Machine → Type 0
PointsBack b m =
    (b.consumer_kind ≡ text "Metal3Machine")
    × (b.consumer_name ≢ [])
    × IsNamespace b.consumer_namespace b.namespace m.namespace
    × (b.consumer_name ≡ m.name)

-- The machine refers to the Metal3Machine as its infrastructure.
abbrev pub RefersTo : Machine → Metal3Machine → Type 0
RefersTo m x =
    (m.infra_kind ≡ text "Metal3Machine")
    × (m.infra_name ≢ [])
    × (x.namespace ≡ m.namespace)
    × (x.name ≡ m.infra_name)

forward_host_sound :
    (bmhs : List BareMetalHost) (m : Metal3Machine) (b : BareMetalHost)
    → forward_host (bmh_by_name bmhs) m ≡ some b
    → In b bmhs × Names m b
unfolding forward_host bmh_by_name
forward_host_sound bmhs m b h = elim (Bool-cases (is_empty m.bmh_name)) [
  | inl e ↦ absurd (ground arith)
  | inr e ↦
      let (i, k) =
        find-index_by_sound bmh_key bmhs (or_namespace m.bmh_namespace m.namespace, m.bmh_name) b
          (ground arith) in
      (
        i,
        (
          (λ empty. absurd (ground arith)),
          ap (λ (p : NsName). p.1) (sym k),
          (or_namespace_iff m.bmh_namespace m.namespace b.namespace).0
              (ap (λ (p : NsName). p.0) (sym k)),
        ),
      )
]

consumer_sound :
    (bmhs : List BareMetalHost) (m : Metal3Machine) (b : BareMetalHost)
    → find (m.namespace, m.name) (bmh_by_consumer bmhs) ≡ some b
    → In b bmhs × PointsBack b m
unfolding bmh_by_consumer
consumer_sound bmhs m b h =
    let (i, k) =
      find-index_by_sound consumer_key (keep is_consumed bmhs) (m.namespace, m.name) b h in
    let (j, used) = In-keep is_consumed bmhs b i in
    let (kind, ne) = (is_consumed_iff b).0 used in
    (
      j,
      (
        kind,
        ne,
        (or_namespace_iff b.consumer_namespace b.namespace m.namespace).0
            (ap (λ (p : NsName). p.0) k),
        ap (λ (p : NsName). p.1) (sym k),
      ),
    )

host_of_sound :
    (bmhs : List BareMetalHost) (m : Metal3Machine) (b : BareMetalHost)
    → host_of (bmh_by_name bmhs) (bmh_by_consumer bmhs) m ≡ some b
    → In b bmhs × (Names m b ⊎ PointsBack b m)
unfolding host_of
host_of_sound bmhs m b h = elim (Option-cases (forward_host (bmh_by_name bmhs) m)) [
  | inr (c, e) ↦ let (i, n) = forward_host_sound bmhs m b (ground arith) in (i, inl n)
  | inl e ↦ let (i, p) = consumer_sound bmhs m b (ground arith) in (i, inr p)
]

forward_host_complete :
    (bmhs : List BareMetalHost) (m : Metal3Machine) (b : BareMetalHost)
    → In b bmhs
    → Names m b
    → (c : BareMetalHost) × (forward_host (bmh_by_name bmhs) m ≡ some c)
unfolding forward_host bmh_by_name
forward_host_complete bmhs m b i (ne, same_b, ns) =
    let same_ns = (or_namespace_iff m.bmh_namespace m.namespace b.namespace).1 ns in
    let (c, found) = find-index_by_complete bmh_key bmhs b i in
    (c, rw (is_empty-ne m.bmh_name ne, ← same_b, ← same_ns) found)

consumer_complete :
    (bmhs : List BareMetalHost) (m : Metal3Machine) (b : BareMetalHost)
    → In b bmhs
    → PointsBack b m
    → (c : BareMetalHost) × (find (m.namespace, m.name) (bmh_by_consumer bmhs) ≡ some c)
unfolding bmh_by_consumer
consumer_complete bmhs m b i (kind, ne, ns, same_b) =
    let used = (is_consumed_iff b).1 (kind, ne) in
    let same_ns : or_namespace b.consumer_namespace b.namespace ≡ m.namespace =
      sym ((or_namespace_iff b.consumer_namespace b.namespace m.namespace).1 ns) in
    let kept = keep-In is_consumed bmhs b i used in
    let (c, found) = find-index_by_complete consumer_key (keep is_consumed bmhs) b kept in
    (c, rw (← same_ns, ← same_b) found)

or_else-left : {A : Type 0} (o q : Option A) (a : A) → o ≡ some a → (c : A) × (or_else o q ≡ some c)
or_else-left none q a h = absurd (ground arith)
or_else-left (some b) q a h = (b, refl)

or_else-right :
    {A : Type 0} (o q : Option A) (a : A) → q ≡ some a → (c : A) × (or_else o q ≡ some c)
or_else-right none q a h = (a, h)
or_else-right (some b) q a h = (b, refl)

host_of_complete :
    (bmhs : List BareMetalHost) (m : Metal3Machine) (b : BareMetalHost)
    → In b bmhs
    → Names m b ⊎ PointsBack b m
    → (c : BareMetalHost) × (host_of (bmh_by_name bmhs) (bmh_by_consumer bmhs) m ≡ some c)
unfolding host_of
host_of_complete bmhs m b i (inl n) =
    let (c, found) = forward_host_complete bmhs m b i n in or_else-left _ _ c found
host_of_complete bmhs m b i (inr p) =
    let (c, found) = consumer_complete bmhs m b i p in or_else-right _ _ c found

infra_of_sound :
    (m3ms : List Metal3Machine) (m : Machine) (x : Metal3Machine)
    → infra_of (m3m_by_name m3ms) m ≡ some x
    → In x m3ms × RefersTo m x
unfolding infra_of m3m_by_name
infra_of_sound m3ms m x h =
    elim (Bool-cases (text_eq m.infra_kind metal3_machine_kind && not (is_empty m.infra_name))) [
      | inr e ↦ absurd (ground arith)
      | inl e ↦
          let (i, k) =
            find-index_by_sound m3m_key m3ms (m.namespace, m.infra_name) x (ground arith) in
          (
            i,
            (
              text_eq_sound m.infra_kind metal3_machine_kind (ground arith),
              (λ empty. absurd (ground arith)),
              ap (λ (p : NsName). p.0) (sym k),
              ap (λ (p : NsName). p.1) (sym k),
            ),
          )
    ]

infra_of_complete :
    (m3ms : List Metal3Machine) (m : Machine) (x : Metal3Machine)
    → In x m3ms
    → RefersTo m x
    → (y : Metal3Machine) × (infra_of (m3m_by_name m3ms) m ≡ some y)
unfolding infra_of m3m_by_name
infra_of_complete m3ms m x i (kind, ne, same_ns, same_name) =
    let (y, found) = find-index_by_complete m3m_key m3ms x i in
    (
      y,
      rw
          (
            kind,
            is_empty-ne m.infra_name ne,
            text_eq_refl metal3_machine_kind,
            ← same_ns,
            ← same_name,
          )
          found,
    )

module _ (m3ms : List Metal3Machine) (bmhs : List BareMetalHost) (role_fn : Option RoleFunc)
    (m : Machine) where
  -- A host that a row shows is one of the hosts, and a Metal3Machine of the list, to which the machine
  -- refers, names it by its annotation or is pointed back at by its consumer reference.
  pub row_of_sound :
      (b : BareMetalHost)
      → (row_of m3ms bmhs role_fn m).bare_metal_host ≡ some b
      → In b bmhs × ((x : Metal3Machine) × In x m3ms × RefersTo m x × (Names x b ⊎ PointsBack b x))
  unfolding row_of
  row_of_sound b h = elim (Option-cases (infra_of (m3m_by_name m3ms) m)) [
    | inl e ↦ absurd (ground arith)
    | inr (x, e) ↦
        let (i, refers) = infra_of_sound m3ms m x e in
        let (j, bound) = host_of_sound bmhs x b (ground arith) in (j, (x, i, refers, bound))
  ]

  -- A row shows a Metal3Machine whenever the machine refers to one of the list, and then shows a host
  -- whenever that Metal3Machine names a host of the list or a host of the list points back at it.
  pub row_of_complete :
      ((x : Metal3Machine)
        → In x m3ms
        → RefersTo m x
        → (y : Metal3Machine) × ((row_of m3ms bmhs role_fn m).metal3_machine ≡ some y))
      × ((x : Metal3Machine) (b : BareMetalHost)
          → (row_of m3ms bmhs role_fn m).metal3_machine ≡ some x
          → In b bmhs
          → Names x b ⊎ PointsBack b x
          → (c : BareMetalHost) × ((row_of m3ms bmhs role_fn m).bare_metal_host ≡ some c))
  unfolding row_of
  row_of_complete = (
    infra_of_complete m3ms m,
    (λ x b e i bound.
        let (c, found) = host_of_complete bmhs x b i bound in
        let infra : infra_of (m3m_by_name m3ms) m ≡ some x = e in (c, rw (infra, row_of) found)),
  )
