-- ===== src/Disk/Fields/Sets.antt =====
-- What setField of core/disk/disk.go changes.
use albius.Base.{
  ◌≡◌, ◌≢◌, refl, ap, inl, inr, true, false, Bool-cases, Option, none, some, List, [], ◌∷◌, ◌++◌,
  Text, All, ◌==◌, ==_refl, list_eq, nat_eq, list_beq_sound,
}
use albius.Machine.{Platform}
use albius.Machine.Results.{ok}
use albius.Machine.Returns.{ok-injective, outcome-returns}
use albius.Disk.Fields.{Value, Field, converted, set_value, set_found, set_field}

module _ ⦃P : Platform⦄ where
  -- The field in its new state: another value of the same type
  abbrev pub IsChanged : Field → Field → Type 0
  IsChanged field changed =
      (field.settable ≡ true)
      × (changed.name ≡ field.name)
      × (changed.settable ≡ field.settable)
      × (changed.value.type.full ≡ field.value.type.full)

  -- The first field with that name is changed, and no other.
  pub record IsSetAt (name : Text) (fields fields' : List Field) : Type 0 where
    pub before : List Field
    pub field : Field
    pub changed : Field
    pub after : List Field
    pub was : fields ≡ before ++ (field ∷ after)
    pub is : fields' ≡ before ++ (changed ∷ after)
    pub found : field.name ≡ name
    pub earlier : All (λ other. other.name ≢ name) before
    pub kept : IsChanged field changed

  set_value-IsChanged :
      (field changed : Field) (v : Value)
      → field.settable ≡ true
      → set_value field v ≡ ok changed
      → IsChanged field changed
  unfolding set_value
  set_value-IsChanged field changed v s h =
      elim (Bool-cases (field.value.type.full == v.type.full)) [
        | inl e ↦
            let same : record field { value = v } ≡ changed = ok-injective (rw e at h) in
            rw (← same) (s, refl, refl, cc (list_beq_sound _ _ e))
        | inr e ↦ cc (rw e at h)
      ]

  set_found-IsChanged :
      (field changed : Field) (v : Option Value)
      → set_found field v ≡ ok changed
      → IsChanged field changed
  unfolding set_found
  set_found-IsChanged field changed none h = elim (Bool-cases field.settable) [
    | inl e ↦ cc (rw e at h)
    | inr e ↦ cc (rw e at h)
  ]
  set_found-IsChanged field changed (some given) h = elim (Bool-cases field.settable) [
    | inl e ↦
        let (v, h1, h2) =
          outcome-returns (converted field.name field.value.type given) (set_value field)
            (simp e at h) in
        set_value-IsChanged field changed v e h2
    | inr e ↦ cc (rw e at h)
  ]

  differs : (a b : Text) → (a == b) ≡ false → a ≢ b
  differs a b e d = cc (e, d, ==_refl b)

  -- When setField returns nil, it changed the field of that name, which is exported, to a value of
  -- the field's own type, and left all other fields, and the names, as they were.
  pub set_field-IsSetAt :
      (fields fields' : List Field) (name : Text) (v : Option Value)
      → set_field fields name v ≡ ok fields'
      → IsSetAt name fields fields'
  unfolding set_field
  set_field-IsSetAt [] fields' name v h = cc h
  set_field-IsSetAt (field ∷ fields) fields' name v h = elim (Bool-cases (field.name == name)) [
    | inl e ↦
        let (changed, h1, h2) = outcome-returns (set_found field v) _ (rw (set_field, e) at h) in
        let same : changed ∷ fields ≡ fields' = ok-injective h2 in
        rw (← same) (record {
          before = [];
          field = field;
          changed = changed;
          after = fields;
          was = refl;
          is = refl;
          found = list_beq_sound field.name name e;
          earlier = tt;
          kept = set_found-IsChanged field changed v h1;
        })
    | inr e ↦
        let (others, h1, h2) =
          outcome-returns (set_field fields name v) _ (rw (set_field, e) at h) in
        let same : field ∷ others ≡ fields' = ok-injective h2 in
        let at = set_field-IsSetAt fields others name v h1 in
        rw (← same) (record {
          before = field ∷ at.before;
          field = at.field;
          changed = at.changed;
          after = at.after;
          was = ap (λ rest. field ∷ rest) at.was;
          is = ap (λ rest. field ∷ rest) at.is;
          found = at.found;
          earlier = (differs field.name name e, at.earlier);
          kept = at.kept;
        })
  ]
