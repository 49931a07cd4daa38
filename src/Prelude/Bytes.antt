-- ===== src/Prelude/Bytes.antt =====
-- Texts as Go has them, sequences of bytes, with what the program uses of the packages `strings`
-- and `fmt`: equality, order, prefixes, cutting at a separator, joining, and decimal numbers.
use Prim.Native.Nat.{ℕ, zero, suc, ◌+◌, ◌/◌, ◌%◌}
use Prim.Native.Char.{code}
use Prim.Native.String.{String}
use mathlib.Core.Path.{◌≡◌, refl, ap}
use mathlib.Core.Logic.{◌≢◌, ◌↔◌, inl, inr}
use mathlib.Core.Bool.{Bool, true, false, ◌&&◌, ◌||◌}
use mathlib.Core.List.{List, [], ◌∷◌, ◌++◌}
use mathlib.Core.Option.{Option, none, some}
use native.Mathlib.Omega.{arith}
use binnacle.Prelude.Tests.{Bool-cases, ltb, ◌==◌, if◌then◌else◌}

abbrev pub Text : Type 0
Text = List ℕ

-- A text literal of the source.
abbrev pub text : String → Text
text String.[] = []
text (String.◌∷◌ c s) = code c ∷ text s

-- `s == t`
unfoldable pub text_eq : Text → Text → Bool
text_eq [] [] = true
text_eq (c ∷ s) (d ∷ t) = c == d && text_eq s t
text_eq _ _ = false

pub text_eq_refl : (s : Text) → text_eq s s ≡ true
unfolding text_eq
text_eq_refl [] = refl
text_eq_refl (c ∷ s) = ground (arith, text_eq_refl s)

pub text_eq_sound : (s t : Text) → text_eq s t ≡ true → s ≡ t
unfolding text_eq
text_eq_sound [] [] h = refl
text_eq_sound [] (d ∷ t) h = absurd (ground arith)
text_eq_sound (c ∷ s) [] h = absurd (ground arith)
text_eq_sound (c ∷ s) (d ∷ t) h = ground (arith, text_eq_sound s t)

pub text_eq_iff : (s t : Text) → (text_eq s t ≡ true) ↔ (s ≡ t)
text_eq_iff s t = (text_eq_sound s t, λ e. rw e (text_eq_refl t))

pub text_eq-ne : (s t : Text) → s ≢ t → text_eq s t ≡ false
text_eq-ne s t h = ground (arith, text_eq_sound s t)

-- `s < t`: byte by byte, a proper prefix first.
unfoldable pub text_lt : Text → Text → Bool
text_lt [] [] = false
text_lt [] (d ∷ t) = true
text_lt (c ∷ s) [] = false
text_lt (c ∷ s) (d ∷ t) = ltb c d || c == d && text_lt s t

pub text_lt_irrefl : (s : Text) → text_lt s s ≡ false
unfolding text_lt
text_lt_irrefl [] = refl
text_lt_irrefl (c ∷ s) = ground (arith, text_lt_irrefl s)

pub text_lt_trans : (s t u : Text) → text_lt s t ≡ true → text_lt t u ≡ true → text_lt s u ≡ true
unfolding text_lt
text_lt_trans [] [] u h k = absurd (ground arith)
text_lt_trans [] (d ∷ t) [] h k = absurd (ground arith)
text_lt_trans [] (d ∷ t) (e ∷ u) h k = refl
text_lt_trans (c ∷ s) [] u h k = absurd (ground arith)
text_lt_trans (c ∷ s) (d ∷ t) [] h k = absurd (ground arith)
text_lt_trans (c ∷ s) (d ∷ t) (e ∷ u) h k = ground (arith, text_lt_trans s t u)

pub text_lt-total : (s t : Text) → text_lt s t ≡ false → text_lt t s ≡ false → s ≡ t
unfolding text_lt
text_lt-total [] [] h k = refl
text_lt-total [] (d ∷ t) h k = absurd (ground arith)
text_lt-total (c ∷ s) [] h k = absurd (ground arith)
text_lt-total (c ∷ s) (d ∷ t) h k = ground (arith, text_lt-total s t)

-- `strings.CutPrefix(s, p)`: what follows the prefix, if `s` begins with it.
unfoldable pub cut_prefix : Text → Text → Option Text
cut_prefix s [] = some s
cut_prefix [] (d ∷ p) = none
cut_prefix (c ∷ s) (d ∷ p) = if c == d then cut_prefix s p else none

abbrev pub is_some {ℓ} : {A : Type ℓ} → Option A → Bool
is_some none = false
is_some (some a) = true

-- `strings.HasPrefix(s, p)`
abbrev pub has_prefix : Text → Text → Bool
has_prefix s p = is_some (cut_prefix s p)

pub cut_prefix-append : (p r : Text) → cut_prefix (p ++ r) p ≡ some r
unfolding cut_prefix
cut_prefix-append [] r = refl
cut_prefix-append (c ∷ p) r = ground (arith, cut_prefix-append p r)

pub cut_prefix_sound : (s p r : Text) → cut_prefix s p ≡ some r → s ≡ p ++ r
unfolding cut_prefix
cut_prefix_sound s [] r h = ground arith
cut_prefix_sound [] (d ∷ p) r h = absurd (ground arith)
cut_prefix_sound (c ∷ s) (d ∷ p) r h = ground (arith, cut_prefix_sound s p r)

-- What `cut` answers one byte further left.
abbrev pub cons_before : ℕ → Option (Text × Text) → Option (Text × Text)
cons_before c none = none
cons_before c (some (b, a)) = some (c ∷ b, a)

-- `strings.Cut(s, sep)` at a separator of one byte.
unfoldable pub cut : Text → ℕ → Option (Text × Text)
cut [] sep = none
cut (c ∷ s) sep = if c == sep then some ([], s) else cons_before c (cut s sep)

-- Whether the byte occurs.
unfoldable pub has_byte : Text → ℕ → Bool
has_byte [] b = false
has_byte (c ∷ s) b = c == b || has_byte s b

pub cut-append :
    (s r : Text) (sep : ℕ) → has_byte s sep ≡ false → cut (s ++ sep ∷ r) sep ≡ some (s, r)
unfolding cut has_byte
cut-append [] r sep h = ground arith
cut-append (c ∷ s) r sep h = ground (arith, cut-append s r sep)

pub cut-eq-none : (s : Text) (sep : ℕ) → has_byte s sep ≡ false → cut s sep ≡ none
unfolding cut has_byte
cut-eq-none [] sep h = refl
cut-eq-none (c ∷ s) sep h = ground (arith, cut-eq-none s sep)

-- `strings.Contains(s, p)`
unfoldable pub contains : Text → Text → Bool
contains [] p = has_prefix [] p
contains (c ∷ s) p = has_prefix (c ∷ s) p || contains s p

pub contains-of_prefix : (s p : Text) → has_prefix s p ≡ true → contains s p ≡ true
unfolding contains
contains-of_prefix [] p h = h
contains-of_prefix (c ∷ s) p h = rw h

pub contains-append : (a p b : Text) → contains (a ++ (p ++ b)) p ≡ true
unfolding contains
contains-append [] p b =
    contains-of_prefix (p ++ b) p (ap (is_some {A = Text}) (cut_prefix-append p b))
contains-append (c ∷ a) p b = ground (arith, contains-append a p b)

-- `strings.Join(l, ",")` and `strings.Split(s, ",")` at a separator of one byte.
unfoldable pub join : List Text → ℕ → Text
join [] sep = []
join (s ∷ []) sep = s
join (s ∷ t ∷ l) sep = s ++ sep ∷ join (t ∷ l) sep

-- What `split` answers one byte further left: the first part is longer by it.
abbrev pub cons_first : ℕ → List Text → List Text
cons_first c [] = (c ∷ []) ∷ []
cons_first c (s ∷ l) = (c ∷ s) ∷ l

unfoldable pub split : Text → ℕ → List Text
split [] sep = [] ∷ []
split (c ∷ s) sep = let rest = split s sep in if c == sep then [] ∷ rest else cons_first c rest

pub has_byte-append : (s t : Text) (b : ℕ) → has_byte (s ++ t) b ≡ (has_byte s b || has_byte t b)
unfolding has_byte
has_byte-append [] t b = refl
has_byte-append (c ∷ s) t b = ground (arith, has_byte-append s t b)

cut-sound_step :
    (c : ℕ) (s : Text) (sep : ℕ) (o : Option (Text × Text)) (b a : Text)
    → ((b' a' : Text) → o ≡ some (b', a') → (s ≡ b' ++ sep ∷ a') × (has_byte b' sep ≡ false))
    → c ≢ sep
    → cons_before c o ≡ some (b, a)
    → (c ∷ s ≡ b ++ sep ∷ a) × (has_byte b sep ≡ false)
unfolding has_byte
cut-sound_step c s sep none b a ih ne h = absurd (ground arith)
cut-sound_step c s sep (some (b', a')) b a ih ne h =
    let (e, f) = ih b' a' refl in ground (arith, e, f)

pub cut_sound :
    (s : Text) (sep : ℕ) (b a : Text)
    → cut s sep ≡ some (b, a)
    → (s ≡ b ++ sep ∷ a) × (has_byte b sep ≡ false)
unfolding cut has_byte
cut_sound [] sep b a h = absurd (ground arith)
cut_sound (c ∷ s) sep b a h = elim (Bool-cases (c == sep)) [
  | inl e ↦ ground arith
  | inr e ↦
      cut-sound_step c s sep (cut s sep) b a (λ b' a' k. cut_sound s sep b' a' k) (ground arith)
        (ground arith)
]

pub split-one : (s : Text) (sep : ℕ) → has_byte s sep ≡ false → split s sep ≡ s ∷ []
unfolding split has_byte
split-one [] sep h = refl
split-one (c ∷ s) sep h = ground (arith, split-one s sep)

pub split-append :
    (s r : Text) (sep : ℕ) → has_byte s sep ≡ false → split (s ++ sep ∷ r) sep ≡ s ∷ split r sep
unfolding split has_byte
split-append [] r sep h = ground arith
split-append (c ∷ s) r sep h = ground (arith, split-append s r sep)

-- No text of the list has the byte.
abbrev pub Free : ℕ → List Text → Type 0
Free b [] = Unit
Free b (s ∷ l) = (has_byte s b ≡ false) × Free b l

-- Splitting takes apart what joining put together, if the separator stands in none of the texts.
pub split-join :
    (s : Text) (l : List Text) (sep : ℕ) → Free sep (s ∷ l) → split (join (s ∷ l) sep) sep ≡ s ∷ l
unfolding join
split-join s [] sep h = split-one s sep h.0
split-join s (t ∷ l) sep h =
    rw (split-append s (join (t ∷ l) sep) sep h.0, split-join t l sep h.1) refl

pub has_byte-join :
    (l : List Text) (sep b : ℕ) → sep ≢ b → Free b l → has_byte (join l sep) b ≡ false
unfolding join has_byte
has_byte-join [] sep b ne h = refl
has_byte-join (s ∷ []) sep b ne h = h.0
has_byte-join (s ∷ t ∷ l) sep b ne h =
    ground (arith, has_byte-append s (sep ∷ join (t ∷ l) sep) b, has_byte-join (t ∷ l) sep b ne h.1)

-- The decimal digits of a number, `%d`. Each step takes one digit; the fuel is the number itself.
unfoldable pub decimal_from : ℕ → ℕ → Text → Text
decimal_from zero n acc = acc
decimal_from (suc f) n acc =
    let rest = decimal_from f (n / 10) ((48 + n % 10) ∷ acc) in
    if ltb n 10 then (48 + n) ∷ acc else rest

unfoldable pub decimal : ℕ → Text
unfolding decimal_from
decimal n = decimal_from (suc n) n []

pub text_lt-asym : (s t : Text) → text_lt s t ≡ true → text_lt t s ≡ false
text_lt-asym s t h = elim (Bool-cases (text_lt t s)) [
  | inl e ↦ absurd (ground (arith, text_lt_trans s t s, text_lt_irrefl s))
  | inr e ↦ e
]

pub not_text_lt_trans :
    (s t u : Text) → text_lt t s ≡ false → text_lt u t ≡ false → text_lt u s ≡ false
not_text_lt_trans s t u h k = elim (Bool-cases (text_lt u s)) [
  | inr e ↦ e
  | inl e ↦ elim (Bool-cases (text_lt s t)) [
    | inl f ↦ absurd (ground (arith, text_lt_trans u s t))
    | inr f ↦ let same : s ≡ t = text_lt-total s t f h in absurd (ground arith)
  ]
]
