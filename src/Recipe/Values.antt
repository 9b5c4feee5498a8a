-- ===== src/Recipe/Values.antt =====
-- The parameters of a recipe's steps (core/recipe.go): values that were read from JSON.
pub mod Emits
pub mod Secrets
use albius.Base.{ℕ, Bool, List, [], ◌∷◌, ◌++◌, Text, text, get_elem?, ℤ, atoi}
use albius.Machine.{
  Platform, Error, message, not_number, as_format, type_assertion, Go, pure, fail, throw, ◌>>=◌,
  lift,
}
use albius.Machine.Results.{or_panic, or_err}
use albius.Lvm.Types.{Any}
use albius.Lvm.Types

module _ ⦃P : Platform⦄ where
  mutual
    -- A value of JSON, by the type that it has in Go. What an object holds is never read.
    pub data Json : Type 0 where
      null : Json
      boolean : Bool → Json
      number : P.F64 → Json
      string : Text → Json
      array : Items → Json
      object : Json

    pub data Items : Type 0 where
      no_items : Items
      item : Json → Items → Items

  -- args[k]
  unfoldable pub arg : List Json → ℕ → Go Json
  arg args k = lift (or_panic (get_elem? args k))

  -- value.(string), value.(float64), value.(bool) and value.([]interface{})
  unfoldable pub as_string : Json → Go Text
  as_string (string s) = pure s
  as_string _ = throw type_assertion

  unfoldable pub as_float : Json → Go P.F64
  as_float (number f) = pure f
  as_float _ = throw type_assertion

  unfoldable pub as_bool : Json → Go Bool
  as_bool (boolean b) = pure b
  as_bool _ = throw type_assertion

  unfoldable pub as_array : Json → Go Items
  as_array (array items) = pure items
  as_array _ = throw type_assertion

  unfoldable pub string_at : List Json → ℕ → Go Text
  string_at args k = do value ← arg args k; as_string value

  unfoldable pub float_at : List Json → ℕ → Go P.F64
  float_at args k = do value ← arg args k; as_float value

  unfoldable pub bool_at : List Json → ℕ → Go Bool
  bool_at args k = do value ← arg args k; as_bool value

  -- int(args[k].(float64))
  unfoldable pub int_at : List Json → ℕ → Go ℤ
  int_at args k = do f ← float_at args k; pure (P.int_of_f64 f)

  -- The loop that asserts that each item is a string
  unfoldable pub strings_of : Items → Go (List Text)
  strings_of no_items = pure []
  strings_of (item value items) = do s ← as_string value; rest ← strings_of items; pure (s ∷ rest)

  unfoldable pub strings_at : List Json → ℕ → Go (List Text)
  strings_at args k = do value ← arg args k; items ← as_array value; strings_of items

  -- jsonFieldToInt
  unfoldable pub json_field_to_int : Json → Go ℤ
  json_field_to_int (number f) = pure (P.int_of_f64 f)
  json_field_to_int (string s) = lift (or_err (atoi s) (not_number s))
  json_field_to_int _ = fail (message (text "jsonToInt only accepts float64 or string"))

  unfoldable pub field_at : List Json → ℕ → Go ℤ
  field_at args k = do value ← arg args k; json_field_to_int value

  -- A parameter that is passed on to the package lvm as it is
  unfoldable pub as_any : Json → Any
  as_any (string s) = Types.string s
  as_any (number f) = Types.float f
  as_any _ = Types.other

-- operationError with an error: `fmt.Errorf("operation: " + err.Error())`
unfoldable pub operation_error : Text → Error → Error
operation_error operation e = as_format (operation ++ text ": ") e
