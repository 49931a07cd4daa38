-- ===== src/Fleet/Views/Card/Honest.antt =====
-- A green card is one that has been read on both sides (internal/fleet/fleet.go, `view` with
-- `readWorkload`).
use binnacle.Prelude.{
  ℕ, ◌≤◌, Bool, true, false, List, [], Option, none, some, Text, ◌≡◌, ◌≢◌, ◌⊎◌, inl, inr, refl,
  arith, is_empty, is_empty_sound, Bool-cases, Option-cases, subst, ltb,
}
use binnacle.Model.{
  Snapshot, Node, Workload, Pod, Value, as_nodes, as_workloads, as_pods, key_workload_nodes,
  key_workload_workloads, key_workload_pods,
}
use binnacle.Store.{Store, get}
use binnacle.Profile.{NodeRoles}
use binnacle.Health.{rank, worse}
use binnacle.Fleet.Views.{ClusterView}
use binnacle.Fleet.Views.Workloads.{read_silence, read_nodes, read_workload, workload_grace}
use binnacle.Fleet.Views.Card.{Tracked, Outside, problem_of, age_of, base_view, darken, view}

-- A snapshot that says something.
abbrev pub IsNews : Snapshot Node → Type 0
IsNews snap = (snap.err ≡ none) × ((snap.items ≢ []) ⊎ (snap.note ≢ []))

-- The nodes have been published, without an error, and there are some or a note tells why not.
abbrev pub IsHeard : Store Value → Type 0
IsHeard s = (snap : Snapshot Node) × (get as_nodes s key_workload_nodes ≡ some snap) × IsNews snap

-- Nothing has been published, but no probe has failed and there is time left.
abbrev pub IsPending : Store Value → Option Text → Bool → ℕ → Type 0
IsPending s probe_err probed age =
    (get as_nodes s key_workload_nodes ≡ none)
    × ((probed ≡ false) ⊎ (probe_err ≡ none))
    × (age ≤ workload_grace)

is_empty_ne : {A : Type 0} (xs : List A) → is_empty xs ≡ false → xs ≢ []
is_empty_ne xs e f = absurd (ground (arith, e, f))

read_nodes-IsNews :
    (roles : NodeRoles) (snap : Snapshot Node) (ws : Option (Snapshot Workload))
    (ps : Option (Snapshot Pod)) (v : ClusterView)
    → (read_nodes roles snap ws ps v).1 ≡ false
    → IsNews snap
unfolding read_nodes
read_nodes-IsNews roles snap ws ps v h = elim (Option-cases snap.err) [
  | inr (e, q) ↦ absurd (ground (arith, h, q))
  | inl q ↦ (
    q,
    elim (Bool-cases (is_empty snap.items)) [
      | inr e ↦ inl (is_empty_ne snap.items e)
      | inl e ↦ elim (Bool-cases (is_empty snap.note)) [
        | inr f ↦ inr (is_empty_ne snap.note f)
        | inl f ↦ absurd (ground (arith, h, q, e, f))
      ]
    ],
  )
]

read_silence-quiet :
    (show : ℕ → Text) (probe_err : Option Text) (probed : Bool) (age : ℕ) (v : ClusterView)
    → (read_silence show probe_err probed age v).1 ≡ false
    → ((probed ≡ false) ⊎ (probe_err ≡ none)) × (age ≤ workload_grace)
unfolding read_silence
read_silence-quiet show none probed age v h = (inr refl, ground (arith, h))
read_silence-quiet show (some e) false age v h = (inl refl, ground (arith, h))
read_silence-quiet show (some e) true age v h = absurd (ground (arith, h))

read_workload-flag :
    (show : ℕ → Text) (s : Store Value) (roles : NodeRoles) (probe_err : Option Text)
    (probed : Bool) (age : ℕ) (v : ClusterView)
    → (read_workload show s roles probe_err probed age v).1 ≡ false
    → IsHeard s ⊎ IsPending s probe_err probed age
unfolding read_workload
read_workload-flag show s roles probe_err probed age v h =
    elim (Option-cases (get as_nodes s key_workload_nodes)) [
      | inl e ↦
          let (quiet, fresh) =
            read_silence-quiet show probe_err probed age v (ground (arith, h, e)) in
          inr (e, quiet, fresh)
      | inr (snap, e) ↦ inl (
        snap,
        e,
        read_nodes-IsNews roles snap (get as_workloads s key_workload_workloads)
            (get as_pods s key_workload_pods) v (ground (arith, h, e)),
      )
    ]

darken-flag : (r : ClusterView × Bool) → rank (darken r).status ≤ 1 → r.1 ≡ false
unfolding worse
darken-flag (v, false) h = refl
darken-flag (v, true) h = elim (Bool-cases (ltb (rank v.status) 2)) [
  | inl e ↦ absurd (ground (arith, h, e))
  | inr e ↦ absurd (ground (arith, h, e))
]

-- A card better than amber has no problem to report, and its workload cluster has either published its
-- nodes without an error (with nodes, or a note that tells why there are none) or, with nothing
-- published yet, no failed probe and an age within the grace period.
pub view-IsHonest :
    (out : Outside) (roles : NodeRoles) (now : ℕ) (t : Tracked)
    → rank (view out roles now t).status ≤ 1
    → (problem_of t ≡ [])
      × (IsHeard t.store ⊎ IsPending t.store t.workload_err t.workload_probe (age_of t now))
unfolding view
view-IsHonest out roles now t h = elim (Bool-cases (is_empty (problem_of t))) [
  | inr e ↦ absurd (ground (arith, h, e))
  | inl e ↦
      let r =
        read_workload out.show_age t.store roles t.workload_err t.workload_probe (age_of t now)
          (base_view out roles t) in
      let same : view out roles now t ≡ darken r = ground (arith, e) in
      (
        is_empty_sound (problem_of t) e,
        read_workload-flag out.show_age t.store roles t.workload_err t.workload_probe (age_of t now)
            (base_view out roles t)
            (darken-flag r (subst (λ (v : ClusterView). rank v.status ≤ 1) same h)),
      )
]
