-- ===== src/Machine/Returns.antt =====
-- A Go function that returned a value: what its parts returned.
use albius.Base.{◌≡◌, refl}
use albius.Machine.{
  Platform, Error, Outcome, ok, err, panic, hang, World, Go, continue, ◌>>=◌, handling, mapped,
}
use albius.Machine.Results.{◌>>=◌ as bind_outcome}

module _ {A : Type 0} where
  pub ok-injective : {a b : A} → ok a ≡ ok b → a ≡ b
  ok-injective h = cc

-- A bind of two results that gave a value
module _ {A B : Type 0} where
  pub outcome-returns :
      (r : Outcome A) (f : A → Outcome B) {b : B}
      → bind_outcome r f ≡ ok b
      → (a : A) × (r ≡ ok a) × (f a ≡ ok b)
  outcome-returns (ok a) f e = (a, refl, e)
  outcome-returns (err d) f e = cc e
  outcome-returns (panic p) f e = cc e
  outcome-returns hang f e = cc e

module _ ⦃P : Platform⦄ {A : Type 0} where
  module _ {B : Type 0} where
    continue-returns :
        (r : Outcome A) (f : A → Go B) (w : World) {b : B}
        → (continue r f w).0 ≡ ok b
        → (a : A) × (r ≡ ok a) × ((f a w).0 ≡ ok b)
    continue-returns (ok a) f w h = (a, refl, h)
    continue-returns (err e) f w h = cc
    continue-returns (panic p) f w h = cc
    continue-returns hang f w h = cc

    pub bind-returns :
        (m : Go A) (f : A → Go B) (w : World) {b : B}
        → ((m >>= f) w).0 ≡ ok b
        → (a : A) × ((m w).0 ≡ ok a) × ((f a (m w).1).0 ≡ ok b)
    unfolding ◌>>=◌
    bind-returns m f w h = continue-returns (m w).0 f (m w).1 h

  mapped-returns : (h : Error → Error) (r : Outcome A) {a : A} → mapped h r ≡ ok a → r ≡ ok a
  mapped-returns h (ok b) e = e
  mapped-returns h (err d) e = cc
  mapped-returns h (panic p) e = cc
  mapped-returns h hang e = cc

  pub handling-returns :
      (h : Error → Error) (m : Go A) (w : World) {a : A}
      → (handling h m w).0 ≡ ok a
      → (m w).0 ≡ ok a
  unfolding handling
  handling-returns h m w e = mapped-returns h (m w).0 e
