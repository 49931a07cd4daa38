-- ===== src/Fleet/Events/Digits.antt =====
-- The printing of ages stays within its buffer (internal/fleet/detail.go, `itoa`).
use binnacle.Prelude.{
  ℕ, zero, suc, ◌+◌, ◌*◌, ◌/◌, ◌%◌, ◌^◌, ◌<◌, ◌∷◌, [], some, Text, ◌≡◌, inl, inr, refl, arith, ltb,
  ◌==◌, Bool-cases, decimal, decimal_from,
}
use binnacle.Prelude.Int.{pos, negsuc}
use binnacle.Fleet.Events.{write_digits, buffer_size, itoa}

abbrev power : ℕ → ℕ
power zero = 1
power (suc i) = 10 * power i

-- With room for all the digits and enough fuel, the loop ends with the digits.
write_digits_lem :
    (fuel i n : ℕ) (b : Text)
    → 0 < n
    → n < fuel
    → n < power i
    → write_digits fuel i n b ≡ some (decimal_from fuel n b)
unfolding write_digits decimal_from
write_digits_lem zero i n b h k l = absurd (omega (arith, k))
write_digits_lem (suc f) zero n b h k l = absurd (omega (arith, h, l))
write_digits_lem (suc zero) (suc i) n b h k l = absurd (omega (arith, h, k))
write_digits_lem (suc (suc f)) (suc i) n b h k l = elim (Bool-cases (ltb n 10)) [
  | inl e ↦
      let small : n < 10 = ground (arith, e) in
      let none_left : n / 10 ≡ 0 = omega (arith, small) in
      let itself : n % 10 ≡ n = omega (arith, small) in ground (arith, e, h, none_left, itself)
  | inr e ↦ ground (
    arith,
    e,
    h,
    write_digits_lem (suc f) i (n / 10) ((48 + n % 10) ∷ b) (ground (arith, e))
        (omega (arith, h, k)) (omega (arith, l)),
  )
]

-- A number from 0 up to the bound of `int` is printed: the loop ends, it never writes before the start of
-- its 20 bytes, and it leaves the decimal digits. A negative number is printed as the empty text.
pub itoa-decimal :
    (n : ℕ) → n < 2 ^ 63 → (itoa (pos n) ≡ some (decimal n)) × (itoa (negsuc n) ≡ some [])
unfolding itoa decimal decimal_from
itoa-decimal n h = elim (Bool-cases (n == 0)) [
  | inl e ↦ let zero_is : n ≡ 0 = ground (arith, e) in (rw zero_is refl, refl)
  | inr e ↦ (
    ground (
      arith,
      e,
      write_digits_lem (suc n) buffer_size n [] (ground (arith, e)) (omega arith)
          (omega (arith, h)),
    ),
    refl,
  )
]
