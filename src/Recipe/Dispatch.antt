-- ===== src/Recipe/Dispatch.antt =====
-- What the two switches of core/recipe.go on the name of an operation share.
use albius.Base.{List, [], ◌∷◌, Text, text, format, ◌==◌, list_eq, nat_eq, if◌then◌else◌}
use albius.Machine.{Platform, message, Go, fail, handling}
use albius.Recipe.Values.{operation_error}

module _ ⦃P : Platform⦄ where
  -- The case of the operation, whose errors go through operationError, or the default
  unfoldable pub dispatch : Text → List (Text × Go (Unit {0})) → Go (Unit {0})
  dispatch operation [] = fail (message (format (text "unrecognized operation " ∷ operation ∷ [])))
  dispatch operation ((name, handler) ∷ cases) =
      if operation == name
      then handling (operation_error operation) handler
      else dispatch operation cases
