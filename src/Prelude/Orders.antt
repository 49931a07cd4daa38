-- ===== src/Prelude/Orders.antt =====
-- Comparisons that try one key after another, as the program's `less` functions do, and why they are
-- strict weak orders.
use binnacle.Prelude.{
  ℕ, Bool, true, false, not, arith, Text, text_eq, text_eq_iff, text_lt, text_lt-asym,
  text_lt-total, not_text_lt_trans, text_lt_irrefl, if◌then◌else◌, ltb, ◌==◌,
}
use binnacle.Prelude.Sort.{IsWeakOrder}

module _ {A : Type 0} where
  abbrev pub by_last : (A → Text) → A → A → Bool
  by_last key a b = text_lt (key a) (key b)

  -- `if key(a) != key(b) { return key(a) < key(b) }`, for texts, numbers and flags (true first).
  abbrev pub by_text : (A → Text) → (A → A → Bool) → A → A → Bool
  by_text key rest a b = if not (text_eq (key a) (key b)) then text_lt (key a) (key b) else rest a b

  abbrev pub by_number : (A → ℕ) → (A → A → Bool) → A → A → Bool
  by_number key rest a b = if not (key a == key b) then ltb (key a) (key b) else rest a b

  abbrev pub by_flag : (A → Bool) → (A → A → Bool) → A → A → Bool
  by_flag key rest a b =
      if key a then (if key b then rest a b else true) else (if key b then false else rest a b)

  pub by_last-IsWeakOrder : (key : A → Text) → IsWeakOrder (by_last key)
  by_last-IsWeakOrder key = record {
    asym = λ x y. text_lt-asym (key x) (key y);
    trans_not = λ x y z. not_text_lt_trans (key x) (key y) (key z);
  }

  module _ (rest : A → A → Bool) (o : IsWeakOrder rest) where
    pub by_number-IsWeakOrder : (key : A → ℕ) → IsWeakOrder (by_number key rest)
    by_number-IsWeakOrder key = record {
      asym = λ x y h. ground (arith, o.asym x y);
      trans_not = λ x y z h k. ground (arith, o.trans_not x y z);
    }

    pub by_flag-IsWeakOrder : (key : A → Bool) → IsWeakOrder (by_flag key rest)
    by_flag-IsWeakOrder key = record {
      asym = λ x y h. ground (arith, o.asym x y);
      trans_not = λ x y z h k. ground (arith, o.trans_not x y z);
    }

    pub by_text-IsWeakOrder : (key : A → Text) → IsWeakOrder (by_text key rest)
    by_text-IsWeakOrder key = record {
      asym = λ x y h. ground (
        arith,
        o.asym x y,
        text_lt-asym (key x) (key y),
        text_eq_iff (key x) (key y),
        text_eq_iff (key y) (key x),
      );
      trans_not = λ x y z h k. ground (
        arith,
        o.trans_not x y z,
        text_eq_iff (key y) (key x),
        text_eq_iff (key z) (key y),
        text_eq_iff (key z) (key x),
        not_text_lt_trans (key x) (key y) (key z),
        text_lt-total (key x) (key y),
        text_lt-total (key y) (key z),
        text_lt-total (key x) (key z),
        text_lt_irrefl (key x),
        text_lt_irrefl (key y),
      );
    }
