-- ===== src/Base/Tests.antt =====
-- Boolean tests on the native numbers, the conditional, and equality as an interface.
use Prim.Native.Nat.{ℕ, compare, Ordering}
use mathlib.Core.Path.{◌≡◌, refl}
use mathlib.Core.Logic.{◌↔◌, ◌≢◌, ◌⊎◌, inl, inr}
use mathlib.Core.Bool.{Bool, true, false, ◌&&◌, ◌||◌}
use mathlib.Core.List.{List, [], ◌∷◌}
use mathlib.Core.Option.{Option, none, some}
use native.Mathlib.Omega.{arith}

abbrev pub ltb : ℕ → ℕ → Bool
ltb a b = elim (compare a b) [ Ordering.lt ↦ true | _ ↦ false ]

abbrev pub leb : ℕ → ℕ → Bool
leb a b = elim (compare a b) [ Ordering.gt ↦ false | _ ↦ true ]

abbrev pub eqb : ℕ → ℕ → Bool
eqb a b = elim (compare a b) [ Ordering.eq ↦ true | _ ↦ false ]

infix 1 if◌then◌else◌
abbrev pub if◌then◌else◌ {ℓ} : {A : Type ℓ} → Bool → A → A → A
if true then x else y = x
if false then x else y = y

pub eqb_iff : (a b : ℕ) → (eqb a b ≡ true) ↔ (a ≡ b)
eqb_iff a b = ground arith

-- To split on a computed value and keep the equation.
pub Bool-cases : (b : Bool) → (b ≡ true) ⊎ (b ≡ false)
Bool-cases true = inl refl
Bool-cases false = inr refl

pub Option-cases {ℓ} : {A : Type ℓ} (o : Option A) → (o ≡ none) ⊎ ((a : A) × (o ≡ some a))
Option-cases none = inl refl
Option-cases (some a) = inr (a, refl)

-- A type whose values the program compares with `==`: the comparison finds what is equal, and
-- nothing else.
pub record Compares {ℓ} (A : Type ℓ) : Type ℓ where
  pub test : A → A → Bool
  pub test-sound : (x y : A) → test x y ≡ true → x ≡ y
  pub test_refl : (x : A) → test x x ≡ true

module _ {ℓ} {A : Type ℓ} ⦃c : Compares A⦄ where
  infix 50 ◌==◌
  abbrev pub ◌==◌ : A → A → Bool
  x == y = c.test x y

instance abbrev pub nat_eq : Compares ℕ
nat_eq = record {
  test = eqb;
  test-sound = λ x y. (eqb_iff x y).0;
  test_refl = λ x. (eqb_iff x x).1 refl;
}

module _ {ℓ} {A : Type ℓ} ⦃c : Compares A⦄ where
  unfoldable pub list_beq : List A → List A → Bool
  list_beq [] [] = true
  list_beq [] (y ∷ ys) = false
  list_beq (x ∷ xs) [] = false
  list_beq (x ∷ xs) (y ∷ ys) = x == y && list_beq xs ys

  pub list_beq_sound : (xs ys : List A) → list_beq xs ys ≡ true → xs ≡ ys
  unfolding list_beq
  list_beq_sound [] [] h = refl
  list_beq_sound [] (y ∷ ys) h = cc
  list_beq_sound (x ∷ xs) [] h = cc
  list_beq_sound (x ∷ xs) (y ∷ ys) h = ground (arith, c.test-sound x y, list_beq_sound xs ys)

  pub list_beq_refl : (xs : List A) → list_beq xs xs ≡ true
  unfolding list_beq
  list_beq_refl [] = refl
  list_beq_refl (x ∷ xs) = ground (arith, c.test_refl x, list_beq_refl xs)

  instance abbrev pub list_eq : Compares (List A)
  list_eq = record { test = list_beq; test-sound = list_beq_sound; test_refl = list_beq_refl }

  pub ==_refl : (x : A) → (x == x) ≡ true
  ==_refl x = c.test_refl x

  -- slices.Contains
  unfoldable pub contains : List A → A → Bool
  contains [] wanted = false
  contains (x ∷ xs) wanted = contains xs wanted || x == wanted

  pub ==_of_ne : (x y : A) → x ≢ y → (x == y) ≡ false
  ==_of_ne x y h = elim (Bool-cases (x == y)) [
    | inl e ↦ absurd (h (c.test-sound x y e))
    | inr e ↦ e
  ]
