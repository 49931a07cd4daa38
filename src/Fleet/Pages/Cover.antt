-- ===== src/Fleet/Pages/Cover.antt =====
-- Which page tells of an event of the Cluster API namespace (internal/fleet/management_detail.go,
-- `managementEvents`; detail.go, `readEvents`).
use binnacle.Prelude.{
  ℕ, Bool, true, false, ◌||◌, List, [], ◌∷◌, ◌++◌, some, ltb, length, ◌<◌, Text, text, text_eq, ◌≡◌,
  ◌⊎◌, inl, inr, arith, sym, ap, subst, ◌∙◌, has_prefix, some_of, some_of-append, some_of-In,
  Bool-cases, In, In-append_right,
}
use binnacle.Model.{Event, Value, as_events, key_mgmt_events}
use binnacle.Store.{Store, get}
use binnacle.Fleet.Views.Card.{Tracked, Outside, view}
use binnacle.Prelude.Orders.{by_number}
use binnacle.Prelude.Sort.{sort_stable-In}
use binnacle.Fleet.Tables.{Split, split, all_rows}
use binnacle.Fleet.Tables.Folds.{all_rows-split}
use binnacle.Fleet.Events.Whole.{group_of_event}
use binnacle.Fleet.Events.{
  EventKey, EventGroup, split_events, event_rank, event_quiet, max_events, owns_name, events_for,
  group_events, cap_events,
}
use binnacle.Fleet.Pages.{
  Site, ClusterDetail, items_of, owned_names, page_events, cluster_detail, read_events, read_rows,
}
use binnacle.Fleet.Pages.Management.{
  MgmtCollector, capi_events, owned_by_all, unclaimed, own_events, management_events, management,
  management_detail,
}

owns_name-append :
    (xs ys : List Text) (name : Text)
    → owns_name (xs ++ ys) name ≡ (owns_name xs name || owns_name ys name)
unfolding owns_name
owns_name-append xs ys name = ground (
  arith,
  some_of-append (text_eq name) xs ys,
  some_of-append (λ o. has_prefix name (o ++ text "-") || has_prefix o (name ++ text "-")) xs ys,
)

owns_name-none : (name : Text) → owns_name [] name ≡ false
unfolding owns_name
owns_name-none name = ground arith

-- The cluster's page matches the event's object by one of the names that it owns.
abbrev pub is_claimed_by : Site → ℕ → Event → Outside × Tracked → Bool
is_claimed_by site now e t = owns_name (owned_names (cluster_detail site now t)) e.object_name

owned_by_all_lem :
    (site : Site) (now : ℕ) (e : Event) (ts : List (Outside × Tracked))
    → owns_name (owned_by_all site now ts) e.object_name ≡ some_of (is_claimed_by site now e) ts
unfolding owned_by_all
owned_by_all_lem site now e [] = owns_name-none e.object_name
owned_by_all_lem site now e (t ∷ ts) = ground (
  arith,
  owns_name-append (owned_names (cluster_detail site now t)) (owned_by_all site now ts)
      e.object_name,
  owned_by_all_lem site now e ts,
)

In-unclaimed :
    (owned : List Text) (es : List Event) (e : Event)
    → In e es
    → owns_name owned e.object_name ≡ false
    → In e (unclaimed owned es)
unfolding unclaimed
In-unclaimed owned [] e i h = elim i [ ]
In-unclaimed owned (d ∷ es) e (inl q) h =
    let same : owns_name owned d.object_name ≡ false =
      ap (λ (e : Event). owns_name owned e.object_name) (sym q) ∙ h in
    rw same (inl q)
In-unclaimed owned (d ∷ es) e (inr i) h = elim (Bool-cases (owns_name owned d.object_name)) [
  | inl u ↦ rw u (In-unclaimed owned es e i h)
  | inr u ↦ rw u (inr (In-unclaimed owned es e i h))
]

In-events_for :
    (owned : List Text) (es : List Event) (e : Event)
    → In e es
    → owns_name owned e.object_name ≡ true
    → In e (events_for es owned).0
unfolding events_for
In-events_for owned [] e i h = elim i [ ]
In-events_for owned (d ∷ es) e (inl q) h =
    let same : owns_name owned d.object_name ≡ true =
      ap (λ (e : Event). owns_name owned e.object_name) (sym q) ∙ h in
    rw same (inl q)
In-events_for owned (d ∷ es) e (inr i) h = elim (Bool-cases (owns_name owned d.object_name)) [
  | inl u ↦ rw u (inr (In-events_for owned es e i h))
  | inr u ↦ rw u (In-events_for owned es e i h)
]

-- What a page's own reader does with an event that it has and claims.
In-page_events :
    (s : Store Value) (owned : List Text) (e : Event)
    → In e (items_of (get as_events s key_mgmt_events))
    → owns_name owned e.object_name ≡ true
    → In e (page_events s owned).0
unfolding page_events
In-page_events s owned e i h =
    In-append_right e _ (events_for (items_of (get as_events s key_mgmt_events)) owned).0
      (In-events_for owned _ e i h)

-- The group is of the event's type, reason, kind and message.
abbrev pub Tells : EventGroup → Event → Type 0
Tells g e =
    (g.event.type ≡ e.type)
    × (g.event.reason ≡ e.reason)
    × (g.event.object_kind ≡ e.object_kind)
    × (g.event.message ≡ e.message)

-- A page tells of an event by one of its groups, or says that it has left groups out.
abbrev pub IsTold : Event → Split EventGroup → ℕ → Type 0
IsTold e events truncated =
    ((g : EventGroup) × In g (all_rows events) × Tells g e) ⊎ (0 < truncated)

cap_events-IsTold :
    (es : List Event) (e : Event)
    → In e es
    → IsTold e (cap_events (group_events es)).0 (cap_events (group_events es)).1
unfolding cap_events split_events
cap_events-IsTold es e i =
    let groups = group_events es in
    let (g, j, same) = group_of_event es e i in
    let tells : Tells g e = (
      ap (λ (k : EventKey). k.typ) same,
      ap (λ (k : EventKey). k.reason) same,
      ap (λ (k : EventKey). k.kind) same,
      ap (λ (k : EventKey). k.message) same,
    ) in
    elim (Bool-cases (ltb max_events (length groups))) [
      | inl h ↦ inr (ground (arith, h))
      | inr h ↦
          let whole : split event_rank (λ a b. false) event_quiet groups ≡ (cap_events groups).0 =
            ground (arith, h) in
          inl (
            g,
            subst (λ (s : Split EventGroup). In g (all_rows s)) whole
                (subst (In g) (sym (all_rows-split event_rank (λ a b. false) event_quiet groups))
                  (sort_stable-In (by_number event_rank (λ a b. false)) g groups j)),
            tells,
          )
    ]

abbrev pub IsOnPage : Site → ℕ → Event → Outside × Tracked → Type 0
IsOnPage site now e t = let d = cluster_detail site now t in IsTold e d.events d.events_truncated

claimed-IsOnPage :
    (site : Site) (now : ℕ) (e : Event) (t : Outside × Tracked)
    → (view t.0 site.roles now t.1).problem ≡ []
    → In e (items_of (get as_events t.1.store key_mgmt_events))
    → is_claimed_by site now e t ≡ true
    → IsOnPage site now e t
unfolding cluster_detail read_events owned_names
claimed-IsOnPage site now (e) (out, t) h i c =
    let v = view out site.roles now t in
    let d = read_rows site t.store v in
    let same : read_events t.store d ≡ cluster_detail site now (out, t) = ground (arith, h) in
    let claimed : owns_name (owned_names d) e.object_name ≡ true =
      ap (λ (d : ClusterDetail). owns_name (owned_names d) e.object_name) same ∙ c in
    subst (λ (d : ClusterDetail). IsTold e d.events d.events_truncated) same
      (cap_events-IsTold (page_events t.store (owned_names d)).0 e
        (In-page_events t.store (owned_names d) e i claimed))

IsTold-management_detail :
    (site : Site) (now : ℕ) (mc : MgmtCollector) (tracked : List (Outside × Tracked)) (e : Event)
    → (management site (some mc)).reachable ≡ true
    → In e (management_events site now (some mc) tracked)
    → let d = management_detail site now (some mc) tracked in IsTold e d.events d.events_truncated
unfolding management_detail
IsTold-management_detail site now mc tracked e reached i =
    let es = management_events site now (some mc) tracked in
    let d = management_detail site now (some mc) tracked in
    let shown : (cap_events (group_events es)).0 ≡ d.events = ground (arith, reached) in
    let left : (cap_events (group_events es)).1 ≡ d.events_truncated = ground (arith, reached) in
    subst (λ n. IsTold e d.events n) left
      (subst (λ s. IsTold e s (cap_events (group_events es)).1) shown (cap_events-IsTold es e i))

-- Where the management cluster can be reached, and the clusters all hold the same events of the Cluster
-- API namespace and none has a problem, the page of a cluster or that of the management cluster tells
-- of each of these events by a group with its type, reason, kind and message, or says that it has left
-- groups out.
pub management_events_cover :
    (site : Site) (now : ℕ) (mc : MgmtCollector) (tracked : List (Outside × Tracked)) (e : Event)
    → (management site (some mc)).reachable ≡ true
    → ((t : Outside × Tracked) → In t tracked → (view t.0 site.roles now t.1).problem ≡ [])
    → ((t : Outside × Tracked)
        → In t tracked
        → items_of (get as_events t.1.store key_mgmt_events) ≡ capi_events tracked)
    → In e (capi_events tracked)
    → let d = management_detail site now (some mc) tracked in
      ((t : Outside × Tracked) × In t tracked × IsOnPage site now e t)
      ⊎ IsTold e d.events d.events_truncated
unfolding management_events
management_events_cover site now mc tracked e reached readable shared i =
    let owned = owned_by_all site now tracked in
    elim (Bool-cases (some_of (is_claimed_by site now e) tracked)) [
      | inl c ↦
          let (t, j, claimed) = some_of-In (is_claimed_by site now e) tracked c in
          inl (
            t,
            j,
            claimed-IsOnPage site now e t (readable t j) (subst (In e) (sym (shared t j)) i)
                claimed,
          )
      | inr c ↦ inr (
          IsTold-management_detail site now mc tracked e reached (
            In-append_right e (own_events (some mc)) (unclaimed owned (capi_events tracked)) (
              In-unclaimed owned (capi_events tracked) e i
                (owned_by_all_lem site now e tracked ∙ c))))
    ]
