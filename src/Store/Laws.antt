-- ===== src/Store/Laws.antt =====
-- What a reader of the store sees after a write (pkg/store/store.go, `Put`, `Raw` and `Get`).
use binnacle.Prelude.{
  ◌≡◌, refl, List, [], ◌∷◌, Option, some, arith, Text, text_eq, if◌then◌else◌, text_eq_iff,
}
use binnacle.Store.{Store, insert, lookup, put, get}

module _ {V : Type 0} where
  lookup-insert :
      (k j : Text) (v : V) (m : List (Text × V))
      → lookup j (insert k v m) ≡ (if text_eq k j then some v else lookup j m)
  unfolding lookup insert
  lookup-insert k j v [] = refl
  lookup-insert k j v ((i, w) ∷ m) =
      ground (arith, text_eq_iff k j, text_eq_iff i k, text_eq_iff i j, lookup-insert k j v m)

  -- After a write to `key`, a typed read of `key` gives the new snapshot if it has the type that the
  -- reader asks for and nothing if it has not, and a read of any other key gives what it gave before.
  get-put :
      {T : Type 0} (assert : V → Option T) (key key' : Text) (snapshot : V) (s : Store V)
      → get assert (put key snapshot s) key'
        ≡ (if text_eq key key' then assert snapshot else get assert s key')
  unfolding get put
  get-put assert key key' snapshot s = ground (arith, lookup-insert key key' snapshot s.snapshots)
