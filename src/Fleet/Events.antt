-- ===== src/Fleet/Events.antt =====
-- internal/fleet/detail.go and events.go: the events of a page, grouped, scoped to a cluster and cut to
-- the cap, and the printing of ages.
--
-- An instant is a number of nanoseconds, 0 for the zero time. A count that an event reports is an
-- `int32`; the sums of the counts of a page stay far below the bound of `int`.
use binnacle.Prelude.{
  ℕ, zero, suc, ◌+◌, ◌-◌, ◌*◌, ◌/◌, ◌%◌, Bool, true, false, not, ◌&&◌, ◌||◌, List, [], ◌∷◌, ◌++◌,
  map, Option, none, some, Text, text, text_eq, if◌then◌else◌, is_empty, some_of, ltb, leb, length,
  take, has_prefix, ◌==◌,
}
use binnacle.Prelude.Int.{ℤ, pos, negsuc}
use binnacle.Prelude.Gather.{gather}
use binnacle.Prelude.Orders.{by_flag}
use binnacle.Prelude.Sort.{sort_stable}
use binnacle.Model.{Event}
use binnacle.Fleet.Tables.{Split, split}
pub mod Summary
pub mod Groups
pub mod Whole
pub mod Digits

pub record EventGroup : Type 0 where
  pub event : Event
  pub occurrences : ℕ
  pub objects : ℕ

pub record EventKey : Type 0 where
  pub typ : Text
  pub reason : Text
  pub kind : Text
  pub message : Text

unfoldable pub key_eq : EventKey → EventKey → Bool
key_eq a b =
    text_eq a.typ b.typ
    && text_eq a.reason b.reason
    && text_eq a.kind b.kind
    && text_eq a.message b.message

abbrev pub key_of_event : Event → EventKey
key_of_event e = record {
  typ = e.type;
  reason = e.reason;
  kind = e.object_kind;
  message = e.message;
}

-- A count below 1 still describes one occurrence.
unfoldable pub occurrences_of : ℤ → ℕ
occurrences_of (pos zero) = 1
occurrences_of (pos (suc n)) = suc n
occurrences_of (negsuc n) = 1

unfoldable pub earliest : ℕ → ℕ → ℕ
earliest a b = if a == 0 then b else if b == 0 then a else if ltb b a then b else a

-- The group under a key, and the names in `seen[key]`.
pub record Slot : Type 0 where
  pub key : EventKey
  pub group : EventGroup
  pub names : List Text

abbrev pub new_slot : Event → Slot
new_slot e = record {
  key = key_of_event e;
  group = record { event = e; occurrences = occurrences_of e.count; objects = 1 };
  names = e.object_name ∷ [];
}

abbrev pub is_named : Text → List Text → Bool
is_named name = some_of (λ n. text_eq n name)

-- The newest member of a group with the earliest of the first times.
unfoldable pub newest : Event → Event → Event
unfolding earliest
newest old e = record (if ltb old.last_timestamp e.last_timestamp then e else old) {
  first_timestamp = earliest old.first_timestamp e.first_timestamp;
}

unfoldable pub merge : Event → Slot → Slot
unfolding newest
merge e s =
    let known = is_named e.object_name s.names in
    record s {
      group = record {
        event = newest s.group.event e;
        occurrences = s.group.occurrences + occurrences_of e.count;
        objects = if known then s.group.objects else s.group.objects + 1;
      };
      names = if known then s.names else e.object_name ∷ s.names;
    }

unfoldable pub add_event : List Slot → Event → List Slot
unfolding gather merge
add_event slots e =
    gather key_eq (λ (s : Slot). s.key) (key_of_event e) (new_slot e) (merge e) slots

unfoldable pub add_events : List Slot → List Event → List Slot
unfolding add_event
add_events slots [] = slots
add_events slots (e ∷ es) = add_events (add_event slots e) es

abbrev pub is_warning : EventGroup → Bool
is_warning g = text_eq g.event.type (text "Warning")

-- Warnings first, then the most recent.
abbrev pub group_less : EventGroup → EventGroup → Bool
group_less = by_flag is_warning (λ a b. ltb b.event.last_timestamp a.event.last_timestamp)

unfoldable pub group_events : List Event → List EventGroup
unfolding add_events
group_events es = sort_stable group_less (map (λ (s : Slot). s.group) (add_events [] es))

abbrev pub event_quiet : ℕ
event_quiet = 1

unfoldable pub event_rank : EventGroup → ℕ
event_rank g = if is_warning g then 0 else event_quiet

unfoldable pub split_events : List EventGroup → Split EventGroup
unfolding event_rank
split_events groups = split event_rank (λ a b. false) event_quiet groups

abbrev pub max_events : ℕ
max_events = 60

unfoldable pub sum_occurrences : ℕ → List EventGroup → ℕ
sum_occurrences total [] = total
sum_occurrences total (g ∷ gs) = sum_occurrences (total + g.occurrences) gs

-- What is shown, the number of groups left out and the number of events.
unfoldable pub cap_events : List EventGroup → Split EventGroup × ℕ × ℕ
unfolding sum_occurrences split_events
cap_events groups =
    let total = sum_occurrences 0 groups in
    if ltb max_events (length groups)
    then (split_events (take max_events groups), length groups - max_events, total)
    else (split_events groups, 0, total)

-- `ownsName`; `owned` are the keys of the map, in some order.
unfoldable pub owns_name : List Text → Text → Bool
owns_name owned name =
    if is_empty name
    then false
    else if some_of (text_eq name) owned
    then true
    else some_of (λ o. has_prefix name (o ++ text "-") || has_prefix o (name ++ text "-")) owned

unfoldable pub events_for : List Event → List Text → List Event × ℕ
unfolding owns_name
events_for [] owned = ([], 0)
events_for (e ∷ es) owned =
    let (mine, elsewhere) = events_for es owned in
    if owns_name owned e.object_name then (e ∷ mine, elsewhere) else (mine, suc elsewhere)

-- The loop of `itoa`, with the bytes of the buffer from `i` on; a write before its start panics, which
-- is `none`.
unfoldable pub write_digits : ℕ → ℕ → ℕ → Text → Option Text
write_digits zero i n b = none
write_digits (suc fuel) i n b =
    if n == 0
    then some b
    else if i == 0
    then none
    else write_digits fuel (i - 1) (n / 10) ((48 + n % 10) ∷ b)

abbrev pub buffer_size : ℕ
buffer_size = 20

-- For a number below 0 the loop is not entered, and the answer is empty.
unfoldable pub itoa : ℤ → Option Text
unfolding write_digits
itoa (pos n) = if n == 0 then some (text "0") else write_digits (suc n) buffer_size n []
itoa (negsuc n) = some []

abbrev pub with_unit : Option Text → Text → Option Text
with_unit none u = none
with_unit (some s) u = some (s ++ u)

abbrev pub second : ℕ
second = 1000000000

-- `Compact` on a duration in nanoseconds; one below 0 prints like 0. The truncated quotients, which the
-- code takes in floating point, are those of natural numbers.
unfoldable pub compact : ℕ → Option Text
unfolding itoa
compact d =
    if d == 0
    then some (text "-")
    else if ltb d (60 * second)
    then with_unit (itoa (pos (d / second))) (text "s")
    else if ltb d (3600 * second)
    then with_unit (itoa (pos (d / (60 * second)))) (text "m")
    else if ltb d (86400 * second)
    then with_unit (itoa (pos (d / (3600 * second)))) (text "h")
    else with_unit (itoa (pos (d / (3600 * second) / 24))) (text "d")
