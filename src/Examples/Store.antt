-- ===== src/Examples/Store.antt =====
-- pkg/store/store.go at concrete inputs: one subscriber, one write, the tick it is owed.
use binnacle.Prelude.{ℕ, [], ◌∷◌, ◌++◌, text, ◌≡◌, refl, true, In}
use binnacle.Store.{Store, new, put, put_locked, subscribe, notify}
use binnacle.Store.Ticks.{IsValid, new-IsValid, subscribe-IsValid, put_ticks, ticked}
use binnacle.Store.Concurrent.{
  System, Reach, start, here, next, write, send, join_in, no_lost_tick, mark,
}

abbrev one_subscriber : Store ℕ
one_subscriber = (subscribe new).0

one_subscriber-IsValid : IsValid one_subscriber
one_subscriber-IsValid = subscribe-IsValid new new-IsValid

put_ticks_example :
    (In 0 one_subscriber.subs → ticked (put (text "k") 7 one_subscriber).channels 0 ≡ true)
    × ((In 0 one_subscriber.subs → ⊥)
        → ticked (put (text "k") 7 one_subscriber).channels 0 ≡ ticked one_subscriber.channels 0)
put_ticks_example = put_ticks (text "k") 7 one_subscriber 0 one_subscriber-IsValid

abbrev joined : System ℕ
joined = record start { store = one_subscriber }

abbrev written : System ℕ
written = record {
  store = (put_locked (text "k") 7 one_subscriber).0;
  pending = joined.pending ++ (put_locked (text "k") 7 one_subscriber).1;
  stale = mark (put_locked (text "k") 7 one_subscriber).1 joined.stale;
}

abbrev sent : System ℕ
sent = record written {
  store = record (written.store) { channels = notify (0 ∷ []) written.store.channels };
  pending = [];
}

owed : written.pending ≡ [] ++ 0 ∷ []
unfolding put_locked subscribe new start
owed = refl

sent-Reach : Reach start sent
unfolding subscribe new start put_locked
sent-Reach = next (next (next here join_in) (write (text "k") 7)) (send [] [] 0 owed)

sent-stale : sent.stale 0 ≡ true
unfolding put_locked subscribe new start
sent-stale = refl

no_lost_tick_example : ticked sent.store.channels 0 ≡ true
no_lost_tick_example = no_lost_tick sent 0 sent-Reach refl sent-stale
