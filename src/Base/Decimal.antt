-- ===== src/Base/Decimal.antt =====
-- Numbers are read back as they were printed.
use Prim.Native.Nat.{ℕ, zero, suc, ◌+◌, ◌/◌, ◌%◌, ◌^◌, ◌<◌}
use mathlib.Core.Path.{◌≡◌, refl}
use mathlib.Core.Bool.{true, false}
use mathlib.Core.Logic.{inl, inr}
use mathlib.Core.List.{[], ◌∷◌}
use mathlib.Core.Option.{none, some}
use native.Mathlib.Omega.{arith}
use albius.Base.Tests.{ltb, Bool-cases}
use albius.Base.Lists.{All}
use albius.Base.Strings.{Text, text}
use albius.Base.Int.{
  pos, negsuc, is_digit, digits, format_nat, format_int, read_digits, int64, atoi,
}

abbrev pub IsDigit : ℕ → Type 0
IsDigit c = is_digit c ≡ true

pub digits-All : (f n : ℕ) (out : Text) → All IsDigit out → All IsDigit (digits f n out)
unfolding digits
digits-All zero n out h = h
digits-All (suc f) n out h = ground (arith, digits-All f (n / 10) ((48 + n % 10) ∷ out))

read-digits : (f n : ℕ) (out : Text) → n < f → read_digits 0 (digits f n out) ≡ read_digits n out
unfolding digits read_digits
read-digits zero n out h = elim h [ ]
read-digits (suc f) n out h = ground (arith, read-digits f (n / 10) ((48 + n % 10) ∷ out))

digits-ne-nil : (f n c : ℕ) (out : Text) → (d : ℕ) × (s : Text) × (digits f n (c ∷ out) ≡ d ∷ s)
unfolding digits
digits-ne-nil zero n c out = (c, out, refl)
digits-ne-nil (suc f) n c out = elim (Bool-cases (ltb n 10)) [
  | inl small ↦ (48 + n, c ∷ out, rw small)
  | inr large ↦ rw large (digits-ne-nil f (n / 10) (48 + n % 10) (c ∷ out))
]

pub format_nat-cons : (n : ℕ) → (d : ℕ) × (s : Text) × (format_nat n ≡ d ∷ s)
unfolding format_nat
format_nat-cons n = elim (Bool-cases (ltb n 10)) [
  | inl small ↦ (48 + n, [], rw small)
  | inr large ↦ rw large (digits-ne-nil n (n / 10) (48 + n % 10) [])
]

pub format_nat-All : (n : ℕ) → All IsDigit (format_nat n)
unfolding format_nat
format_nat-All n = digits-All (suc n) n [] tt

read_digits-format_nat : (n : ℕ) → read_digits 0 (format_nat n) ≡ some n
unfolding format_nat read_digits
read_digits-format_nat n = read-digits (suc n) n [] (omega arith)

-- A text of digits has no sign, so it is read as a plain number.
atoi_of_digits : (c : ℕ) (s : Text) → IsDigit c → atoi (c ∷ s) ≡ int64 false (read_digits 0 (c ∷ s))
unfolding atoi
atoi_of_digits c s h = ground arith

pub atoi-format_nat : (n : ℕ) → n < 2 ^ 63 → atoi (format_nat n) ≡ some (pos n)
unfolding int64
atoi-format_nat n h =
    let (d, s, e) = format_nat-cons n in
    let all : All IsDigit (d ∷ s) = rw e at (format_nat-All n) in
    rw (e, atoi_of_digits d s all.0) (rw (← e, read_digits-format_nat n) (ground arith))

atoi_tests :
    (atoi (text "-42") ≡ some (negsuc 41))
    × (atoi (text "007") ≡ some (pos 7))
    × (atoi (text "9223372036854775808") ≡ none)
    × (atoi (text "12a") ≡ none)
    × (format_int (negsuc 41) ≡ text "-42")
unfolding atoi format_int text
atoi_tests = (refl, refl, refl, refl, refl)
