-- ===== src/Recipe/PostInstall/Safety.antt =====
-- What a post-installation step of core/recipe.go does in a chroot.
use albius.Base.{list_eq, nat_eq, List, Text, All}
use albius.Machine.{Platform, Go}
use albius.Machine.Emits.{Emits}
use albius.Recipe.PostInstall.Calls.{ChrootEvent}
use albius.Recipe.PostInstall.Calls

-- The proofs for a case and for those behind it
infixr 5 ◌&◌
abbrev ◌&◌ : {A B : Type 0} → A → B → A × B
a & b = (a, b)

module _ ⦃P : Platform⦄ (IsGiven : Text → Type 0) where
  -- A handler of each case
  AllCases : List (Text × Go (Unit {0})) → Type 0
  AllCases = All (λ case. Emits (ChrootEvent IsGiven) case.1)
