-- ===== src/Base/Int.antt =====
-- Go's `int` (64 bits) as a signed integer with its range written out, `fmt`'s %d and
-- `strconv.Atoi`.
use Prim.Native.Nat.{ℕ, zero, suc, ◌+◌, ◌-◌, ◌*◌, ◌/◌, ◌%◌, ◌^◌}
use mathlib.Core.Path.{◌≡◌, refl}
use mathlib.Core.Logic.{◌↔◌}
use mathlib.Core.Bool.{Bool, true, false, ◌&&◌}
use mathlib.Core.List.{[], ◌∷◌}
use mathlib.Core.Option.{Option, none, some}
use native.Mathlib.Omega.{arith}
use albius.Base.Tests.{ltb, leb, eqb, eqb_iff, Compares, if◌then◌else◌}
use albius.Base.Strings.{Text}

-- `negsuc n` is -(n + 1).
pub data ℤ : Type 0 where
  pos : ℕ → ℤ
  negsuc : ℕ → ℤ

abbrev pub int_beq : ℤ → ℤ → Bool
int_beq (pos a) (pos b) = eqb a b
int_beq (pos a) (negsuc b) = false
int_beq (negsuc a) (pos b) = false
int_beq (negsuc a) (negsuc b) = eqb a b

pub int_beq_iff : (a b : ℤ) → (int_beq a b ≡ true) ↔ (a ≡ b)
int_beq_iff (pos a) (pos b) = ground (arith, eqb_iff a b)
int_beq_iff (pos a) (negsuc b) = (λ h. cc, λ h. cc)
int_beq_iff (negsuc a) (pos b) = (λ h. cc, λ h. cc)
int_beq_iff (negsuc a) (negsuc b) = ground (arith, eqb_iff a b)

instance abbrev pub int_eq : Compares ℤ
int_eq = record {
  test = int_beq;
  test-sound = λ x y. (int_beq_iff x y).0;
  test_refl = λ x. (int_beq_iff x x).1 refl;
}

abbrev pub int_ltb : ℤ → ℤ → Bool
int_ltb (pos a) (pos b) = ltb a b
int_ltb (pos a) (negsuc b) = false
int_ltb (negsuc a) (pos b) = true
int_ltb (negsuc a) (negsuc b) = ltb b a

abbrev pub minus_one : ℤ
minus_one = negsuc 0

abbrev pub is_digit : ℕ → Bool
is_digit c = leb 48 c && leb c 57

-- The digits of `n` in front of `out`. The fuel is more than the number, so it is never used up.
unfoldable pub digits : ℕ → ℕ → Text → Text
digits zero n out = out
digits (suc fuel) n out =
    let rest = digits fuel (n / 10) ((48 + n % 10) ∷ out) in
    if ltb n 10 then (48 + n) ∷ out else rest

unfoldable pub format_nat : ℕ → Text
unfolding digits
format_nat n = digits (suc n) n []

-- `fmt.Sprint` of an int, and the verb %d
unfoldable pub format_int : ℤ → Text
unfolding format_nat
format_int (pos n) = format_nat n
format_int (negsuc n) = b'-' ∷ format_nat (suc n)

-- The number that digits spell behind `n`; `none` at a byte that is no digit.
unfoldable pub read_digits : ℕ → Text → Option ℕ
read_digits n [] = some n
read_digits n (c ∷ s) = if is_digit c then read_digits (n * 10 + (c - 48)) s else none

unfoldable pub read_nat : Text → Option ℕ
unfolding read_digits
read_nat [] = none
read_nat (c ∷ s) = read_digits 0 (c ∷ s)

-- The largest int is 2^63 - 1, and the smallest -2^63.
unfoldable pub int64 : Bool → Option ℕ → Option ℤ
int64 negative none = none
int64 false (some n) = if ltb n (2 ^ 63) then some (pos n) else none
int64 true (some zero) = some (pos 0)
int64 true (some (suc n)) = if ltb n (2 ^ 63) then some (negsuc n) else none

-- strconv.Atoi; `none` is its error
unfoldable pub atoi : Text → Option ℤ
unfolding read_nat int64
atoi [] = none
atoi (c ∷ s) =
    if eqb c b'-'
    then int64 true (read_nat s)
    else if eqb c b'+'
    then int64 false (read_nat s)
    else int64 false (read_nat (c ∷ s))
