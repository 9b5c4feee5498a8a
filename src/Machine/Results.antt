-- ===== src/Machine/Results.antt =====
-- How a Go function ends: with a value, an error or a panic, or not at all.
use albius.Base.{Option, none, some, List, Text, ℕ, get_elem?}

-- Errors as the program builds them: `wrap` is `fmt.Errorf("prefix%s", err)`, and `as_format` is
-- `fmt.Errorf("prefix" + err.Error())`, where the text is read as a format with no operands.
pub data Error : Type 0 where
  message : Text → Error
  not_number : Text → Error
  wrap : Text → Error → Error
  as_format : Text → Error → Error

pub data Panic : Type 0 where
  index_out_of_range nil_dereference type_assertion : Panic
  raised : Error → Panic

pub data Outcome {ℓ} (A : Type ℓ) : Type ℓ where
  ok : A → Outcome A
  err : Error → Outcome A
  panic : Panic → Outcome A
  hang : Outcome A

module _ {ℓ κ} {A : Type ℓ} {B : Type κ} where
  infixl 10 ◌>>=◌
  abbrev pub ◌>>=◌ : Outcome A → (A → Outcome B) → Outcome B
  ok a >>= f = f a
  err e >>= f = err e
  panic p >>= f = panic p
  hang >>= f = hang

module _ {ℓ} {A : Type ℓ} where
  abbrev pub or_panic : Option A → Outcome A
  or_panic none = panic index_out_of_range
  or_panic (some a) = ok a

  abbrev pub or_err : Option A → Error → Outcome A
  or_err none e = err e
  or_err (some a) e = ok a

-- s[i]
abbrev pub index {ℓ} : {A : Type ℓ} → List A → ℕ → Outcome A
index xs i = or_panic (get_elem? xs i)
