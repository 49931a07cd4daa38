-- ===== src/Store.antt =====
-- pkg/store/store.go: the map of snapshots that sources write and panes read, and its subscribers.
--
-- `V` is the dynamic type `any` of the snapshots. A channel of capacity one is a place in `channels`
-- that tells whether its buffer holds a tick; a subscriber is such a place. The lock makes each
-- method one step, except that `put` sends its ticks after it has released the lock: it is the
-- composition of `put_locked`, which answers the copy of the subscribers, and `notify`.
use binnacle.Prelude.{
  ℕ, zero, suc, Bool, true, false, List, [], ◌∷◌, ◌++◌, map, Option, none, some, Text, text_eq,
  ◌==◌, if◌then◌else◌, length, set,
}
pub mod Laws
pub mod Ticks
pub mod Concurrent

pub record Store (V : Type 0) : Type 0 where
  pub snapshots : List (Text × V)
  pub subs : List ℕ
  pub channels : List Bool

module _ {V : Type 0} where
  unfoldable pub new : Store V
  new = record { snapshots = []; subs = []; channels = [] }

  -- `m[key] = v`
  unfoldable pub insert : Text → V → List (Text × V) → List (Text × V)
  insert k v [] = (k, v) ∷ []
  insert k v ((j, w) ∷ m) = if text_eq j k then (k, v) ∷ m else (j, w) ∷ insert k v m

  -- `v, ok := m[key]`
  unfoldable pub lookup : Text → List (Text × V) → Option V
  lookup k [] = none
  lookup k ((j, v) ∷ m) = if text_eq j k then some v else lookup k m

-- The sends of `Put`: a channel whose buffer is full stays as it is.
unfoldable pub notify : List ℕ → List Bool → List Bool
notify [] channels = channels
notify (sub ∷ subs) channels = notify subs (set channels sub true)

-- The loop of `Unsubscribe`: the first match goes.
unfoldable pub remove_sub : ℕ → List ℕ → List ℕ
remove_sub ch [] = []
remove_sub ch (sub ∷ subs) = if sub == ch then subs else sub ∷ remove_sub ch subs

module _ {V : Type 0} where
  unfoldable pub put_locked : Text → V → Store V → Store V × List ℕ
  unfolding insert
  put_locked key snapshot s = (record s { snapshots = insert key snapshot s.snapshots }, s.subs)

  unfoldable pub put : Text → V → Store V → Store V
  unfolding put_locked notify
  put key snapshot s =
      let (s', subs) = put_locked key snapshot s in record s' { channels = notify subs s'.channels }

  unfoldable pub raw : Store V → Text → Option V
  unfolding lookup
  raw s key = lookup key s.snapshots

  unfoldable pub keys : Store V → List Text
  keys s = map (λ e. e.0) s.snapshots

  -- The new channel, and the store that it is subscribed to.
  unfoldable pub subscribe : Store V → Store V × ℕ
  subscribe s =
      let ch = length s.channels in
      (record s { subs = s.subs ++ ch ∷ []; channels = s.channels ++ false ∷ [] }, ch)

  unfoldable pub unsubscribe : ℕ → Store V → Store V
  unfolding remove_sub
  unsubscribe ch s = record s { subs = remove_sub ch s.subs }

  -- A reader takes the tick out of its buffer.
  unfoldable pub receive : ℕ → Store V → Store V
  receive ch s = record s { channels = set s.channels ch false }

  -- `store.Get[T]`: `assert` is the type assertion to `T`.
  unfoldable pub get : {T : Type 0} → (V → Option T) → Store V → Text → Option T
  unfolding raw
  get assert s key = elim (raw s key) [ none ↦ none | some v ↦ assert v ]
