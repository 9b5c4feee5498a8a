-- ===== src/Disk/Fields.antt =====
-- setField of core/disk/disk.go, and what it uses of the package reflect.
pub mod Sets
use albius.Base.{
  Bool, true, false, not, ◌&&◌, Option, none, some, List, [], ◌∷◌, Text, text, format, ℤ, ◌==◌,
  list_eq, nat_eq, if◌then◌else◌,
}
use albius.Machine.{Platform, message, raised, type_assertion}
use albius.Machine.Results.{Outcome, ok, err, panic, ◌>>=◌}

-- reflect.Kind, as far as the code tells kinds apart
pub data Kind : Type 0 where
  int_kind float64_kind string_kind other_kind : Kind

unfoldable pub is_int : Kind → Bool
is_int int_kind = true
is_int _ = false

unfoldable pub is_float64 : Kind → Bool
is_float64 float64_kind = true
is_float64 _ = false

unfoldable pub is_string : Kind → Bool
is_string string_kind = true
is_string _ = false

-- reflect.Type: the text that tells a type from all others, its name, and its kind
pub record GoType : Type 0 where
  pub full : Text
  pub name : Text
  pub kind : Kind

abbrev pub int_type : GoType
int_type = record { full = text "int"; name = text "int"; kind = int_kind }

abbrev pub float64_type : Text
float64_type = text "float64"

abbrev pub string_type : Text
string_type = text "string"

abbrev pub disk_label_type : GoType
disk_label_type = record {
  full = text "disk.DiskLabel";
  name = text "DiskLabel";
  kind = string_kind;
}

module _ ⦃P : Platform⦄ where
  -- What a value holds
  pub data Contents : Type 0 where
    of_int : ℤ → Contents
    of_float : P.F64 → Contents
    of_string : Text → Contents
    of_other : Contents

  pub record Value : Type 0 where
    pub type : GoType
    pub contents : Contents

  -- A field of the struct, and whether it is exported
  pub record Field : Type 0 where
    pub name : Text
    pub settable : Bool
    pub value : Value

  -- value.(float64) and value.(string)
  unfoldable pub assert_float : Value → Outcome P.F64
  assert_float v = elim v.contents [
    | of_float f ↦ if v.type.full == float64_type then ok f else panic type_assertion
    | _ ↦ panic type_assertion
  ]

  unfoldable pub assert_string : Value → Outcome Text
  assert_string v = elim v.contents [
    | of_string s ↦ if v.type.full == string_type then ok s else panic type_assertion
    | _ ↦ panic type_assertion
  ]

  -- The value in the type of the field
  unfoldable pub converted : Text → GoType → Value → Outcome Value
  converted name type v =
      if type.full == v.type.full
      then ok v
      else if is_int type.kind && is_float64 v.type.kind
      then (do
        f ← assert_float v
        ok (record { type = int_type; contents = of_int (P.int_of_f64 f) }))
      else if (type.name == text "DiskLabel") && is_string v.type.kind
      then (do s ← assert_string v; ok (record { type = disk_label_type; contents = of_string s }))
      else err (
          message (
            format (
              text "provided value type for "
              ∷ name
              ∷ text " did not match obj field type. Expected "
              ∷ type.full
              ∷ text ", got "
              ∷ v.type.full
              ∷ [])))

  -- structFieldValue.Set(value), which panics if the types differ
  unfoldable pub set_value : Field → Value → Outcome Field
  set_value field v =
      if field.value.type.full == v.type.full
      then ok (record field { value = v })
      else panic (raised (message (text "reflect.Set: value is not assignable")))

  -- val.Type() of a nil interface panics
  unfoldable pub set_found : Field → Option Value → Outcome Field
  set_found field v =
      if not field.settable
      then err (message (format (text "cannot set " ∷ field.name ∷ text " field value" ∷ [])))
      else elim v [
        | none ↦ panic (raised (message (text "reflect: call of reflect.Value.Type on zero Value")))
        | some given ↦ do value ← converted field.name field.value.type given; set_value field value
      ]

  -- setField, on the fields of the struct that obj points to
  unfoldable pub set_field : List Field → Text → Option Value → Outcome (List Field)
  set_field [] name v = err (message (format (text "no such field: " ∷ name ∷ text " in obj" ∷ [])))
  set_field (field ∷ fields) name v =
      let rest = set_field fields name v in
      elim (field.name == name) [
        | true ↦ do changed ← set_found field v; ok (changed ∷ fields)
        | false ↦ do others ← rest; ok (field ∷ others)
      ]
