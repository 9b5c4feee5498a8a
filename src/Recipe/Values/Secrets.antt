-- ===== src/Recipe/Values/Secrets.antt =====
-- The parameters of a step (core/recipe.go) where environments of commands differ.
use albius.Base.{◌≡◌, refl, ◌∷◌, ℕ, some, List, get_elem?, Text}
use albius.Machine.{Platform, Go, pure, lift, ◌>>=◌}
use albius.Machine.Secrets.{Alike, Alike-pure, Alike-bind, Alike-lift, secret_rules}
use albius.Recipe.Values.{
  Json, boolean, number, string, array, null, object, arg, as_string, as_float, json_field_to_int,
  as_bool, as_array, string_at, bool_at, strings_of, strings_at, Items, no_items, item, float_at,
  int_at, field_at,
}

module _ ⦃P : Platform⦄ where
  pub Alike-as_string : (value : Json) → Alike (as_string value) (as_string value)
  unfolding as_string
  Alike-as_string null = search secret_rules
  Alike-as_string (boolean b) = search secret_rules
  Alike-as_string (number f) = search secret_rules
  Alike-as_string (string s) = search secret_rules
  Alike-as_string (array items) = search secret_rules
  Alike-as_string object = search secret_rules

  Alike-as_float : (value : Json) → Alike (as_float value) (as_float value)
  unfolding as_float
  Alike-as_float null = search secret_rules
  Alike-as_float (boolean b) = search secret_rules
  Alike-as_float (number f) = search secret_rules
  Alike-as_float (string s) = search secret_rules
  Alike-as_float (array items) = search secret_rules
  Alike-as_float object = search secret_rules

  Alike-as_bool : (value : Json) → Alike (as_bool value) (as_bool value)
  unfolding as_bool
  Alike-as_bool null = search secret_rules
  Alike-as_bool (boolean b) = search secret_rules
  Alike-as_bool (number f) = search secret_rules
  Alike-as_bool (string s) = search secret_rules
  Alike-as_bool (array items) = search secret_rules
  Alike-as_bool object = search secret_rules

  pub Alike-as_array : (value : Json) → Alike (as_array value) (as_array value)
  unfolding as_array
  Alike-as_array null = search secret_rules
  Alike-as_array (boolean b) = search secret_rules
  Alike-as_array (number f) = search secret_rules
  Alike-as_array (string s) = search secret_rules
  Alike-as_array (array items) = search secret_rules
  Alike-as_array object = search secret_rules

  Alike-json_field_to_int :
      (value : Json) → Alike (json_field_to_int value) (json_field_to_int value)
  unfolding json_field_to_int
  Alike-json_field_to_int null = search secret_rules
  Alike-json_field_to_int (boolean b) = search secret_rules
  Alike-json_field_to_int (number f) = search secret_rules
  Alike-json_field_to_int (string s) = search secret_rules
  Alike-json_field_to_int (array items) = search secret_rules
  Alike-json_field_to_int object = search secret_rules

  pub Alike-arg :
      (args args' : List Json) (k : ℕ)
      → get_elem? args k ≡ get_elem? args' k
      → Alike (arg args k) (arg args' k)
  unfolding arg
  Alike-arg args args' k h = rw h (Alike-lift _)

  pub Alike-string_at :
      (args args' : List Json) (k : ℕ)
      → get_elem? args k ≡ get_elem? args' k
      → Alike (string_at args k) (string_at args' k)
  unfolding string_at
  Alike-string_at args args' k h = search (secret_rules, Alike-arg, Alike-as_string)

  pub Alike-float_at :
      (args args' : List Json) (k : ℕ)
      → get_elem? args k ≡ get_elem? args' k
      → Alike (float_at args k) (float_at args' k)
  unfolding float_at
  Alike-float_at args args' k h = search (secret_rules, Alike-arg, Alike-as_float)

  pub Alike-bool_at :
      (args args' : List Json) (k : ℕ)
      → get_elem? args k ≡ get_elem? args' k
      → Alike (bool_at args k) (bool_at args' k)
  unfolding bool_at
  Alike-bool_at args args' k h = search (secret_rules, Alike-arg, Alike-as_bool)

  Alike-strings_of : (items : Items) → Alike (strings_of items) (strings_of items)
  unfolding strings_of
  Alike-strings_of no_items = search secret_rules
  Alike-strings_of (item value items) =
      Alike-bind _ _ _ _ (Alike-as_string value)
        (λ s. Alike-bind _ _ _ _ (Alike-strings_of items) (λ rest. Alike-pure (s ∷ rest)))

  pub Alike-strings_at :
      (args args' : List Json) (k : ℕ)
      → get_elem? args k ≡ get_elem? args' k
      → Alike (strings_at args k) (strings_at args' k)
  unfolding strings_at
  Alike-strings_at args args' k h =
      search (secret_rules, Alike-arg, Alike-as_array, Alike-strings_of)

  pub Alike-int_at :
      (args args' : List Json) (k : ℕ)
      → get_elem? args k ≡ get_elem? args' k
      → Alike (int_at args k) (int_at args' k)
  unfolding int_at
  Alike-int_at args args' k h = search (secret_rules, Alike-float_at)

  pub Alike-field_at :
      (args args' : List Json) (k : ℕ)
      → get_elem? args k ≡ get_elem? args' k
      → Alike (field_at args k) (field_at args' k)
  unfolding field_at
  Alike-field_at args args' k h = search (secret_rules, Alike-arg, Alike-json_field_to_int)

  -- A step goes on with the string that stands at the index.
  pub string_at-known :
      {A : Type 0} (args : List Json) (k : ℕ) (s : Text) (f : Text → Go A)
      → get_elem? args k ≡ some (string s)
      → (string_at args k >>= f) ≡ f s
  unfolding string_at arg lift as_string pure ◌>>=◌
  string_at-known args k s f h = rw h refl

  -- Where the strings at the index differ, the calls that go on with them have to agree.
  pub Alike-string_at_secret :
      {A : Type 0} (args args' : List Json) (k : ℕ) (p q : Text) (f f' : Text → Go A)
      → get_elem? args k ≡ some (string p)
      → get_elem? args' k ≡ some (string q)
      → Alike (f p) (f' q)
      → Alike (string_at args k >>= f) (string_at args' k >>= f')
  Alike-string_at_secret args args' k p q f f' hp hq h =
      rw (string_at-known args k p f hp, string_at-known args' k q f' hq) h
