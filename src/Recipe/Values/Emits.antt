-- ===== src/Recipe/Values/Emits.antt =====
-- Reading the parameters of a step (core/recipe.go) does nothing to the machine.
use albius.Base.{◌≡◌, ℕ, List, Text}
use albius.Machine.{Platform, Event, pure, throw}
use albius.Machine.Returns.{ok-injective}
use albius.Machine.Emits.{Emits, Gave, Emits-bind, Emits-pure, emit_rules}
use albius.Recipe.Values.{
  Json, null, object, boolean, number, string, array, Items, no_items, item, arg, as_string,
  as_float, as_bool, as_array, string_at, float_at, bool_at, int_at, strings_of, strings_at,
}

module _ ⦃P : Platform⦄ {E : Event → Type 0} where
  pub as_string-Emits : (value : Json) → Emits E (as_string value)
  unfolding as_string
  as_string-Emits (string s) = search emit_rules
  as_string-Emits _ = search emit_rules

  as_float-Emits : (value : Json) → Emits E (as_float value)
  unfolding as_float
  as_float-Emits (number f) = search emit_rules
  as_float-Emits _ = search emit_rules

  as_bool-Emits : (value : Json) → Emits E (as_bool value)
  unfolding as_bool
  as_bool-Emits (boolean b) = search emit_rules
  as_bool-Emits _ = search emit_rules

  as_array-Emits : (value : Json) → Emits E (as_array value)
  unfolding as_array
  as_array-Emits (array items) = search emit_rules
  as_array-Emits _ = search emit_rules

  arg-Emits : (args : List Json) (k : ℕ) → Emits E (arg args k)
  unfolding arg
  arg-Emits args k = search emit_rules

  pub string_at-Emits : (args : List Json) (k : ℕ) → Emits E (string_at args k)
  unfolding string_at
  string_at-Emits args k = search (emit_rules, arg-Emits, as_string-Emits)

  pub float_at-Emits : (args : List Json) (k : ℕ) → Emits E (float_at args k)
  unfolding float_at
  float_at-Emits args k = search (emit_rules, arg-Emits, as_float-Emits)

  pub bool_at-Emits : (args : List Json) (k : ℕ) → Emits E (bool_at args k)
  unfolding bool_at
  bool_at-Emits args k = search (emit_rules, arg-Emits, as_bool-Emits)

  pub int_at-Emits : (args : List Json) (k : ℕ) → Emits E (int_at args k)
  unfolding int_at
  int_at-Emits args k = search (emit_rules, float_at-Emits)

  strings_of-Emits : (items : Items) → Emits E (strings_of items)
  unfolding strings_of
  strings_of-Emits no_items = search emit_rules
  strings_of-Emits (item value items) =
      Emits-bind _ _ (as_string-Emits value)
        (λ s. Emits-bind _ _ (strings_of-Emits items) (λ rest. Emits-pure _))

  pub strings_at-Emits : (args : List Json) (k : ℕ) → Emits E (strings_at args k)
  unfolding strings_at
  strings_at-Emits args k = search (emit_rules, arg-Emits, as_array-Emits, strings_of-Emits)

module _ ⦃P : Platform⦄ where
  -- The value that gave a string is that string.
  pub as_string-string : (value : Json) (s : Text) → Gave (as_string value) s → string s ≡ value
  unfolding as_string pure throw
  as_string-string (string t) s (w, h) = let same : t ≡ s = ok-injective h in cc same
  as_string-string null s (w, h) = cc h
  as_string-string (boolean b) s (w, h) = cc h
  as_string-string (number f) s (w, h) = cc h
  as_string-string (array items) s (w, h) = cc h
  as_string-string object s (w, h) = cc h

pub ruleset value_rules = (
  as_string-Emits, string_at-Emits, float_at-Emits, bool_at-Emits, int_at-Emits, strings_at-Emits,
)
