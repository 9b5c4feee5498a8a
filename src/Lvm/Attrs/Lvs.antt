-- ===== src/Lvm/Attrs/Lvs.antt =====
-- What `parseLvAttrs` of core/lvm/lv.go makes of an attribute text.
use albius.Base.{
  get_elem?, ==_refl, Bool-cases, refl, ◌⊎◌, inl, inr, ℕ, ◌+◌, ◌≡◌, some, List, Text, ◌∷◌, ◌==◌,
  nat_eq, if◌then◌else◌, arith,
}
use albius.Machine.Results.{Outcome, ok, ◌>>=◌}
use albius.Lvm.Bits.{
  attr_vol_type_map, attr_permissions_map, attr_alloc_policy_map, attr_state_map, attr_device_map,
  attr_target_type_map, attr_health_map,
}
use albius.Lvm.Attrs.{LvAttrs, lookup_byte, from_map, letter_or_dash, parse_lv_attrs}

-- Whatever the text, the fields for zeroed blocks and skipped activation are 0.
pub parse_lv_attrs_drops :
    (attr : Text) {a : LvAttrs} → parse_lv_attrs attr ≡ ok a → (a.blocks ≡ 0) × (a.skip ≡ 0)
unfolding parse_lv_attrs
parse_lv_attrs_drops attr h = ground arith

letter_or_dash-accepts :
    (attr : Text) (i c letter bit : ℕ)
    → get_elem? attr i ≡ some c
    → (c ≡ letter) ⊎ (c ≡ b'-')
    → (b : ℕ) × (letter_or_dash attr i letter bit ≡ ok b)
unfolding letter_or_dash
letter_or_dash-accepts attr i c letter bit e (inl h) = (bit, rw (e, h, ==_refl letter))
letter_or_dash-accepts attr i c letter bit e (inr h) = elim (Bool-cases (b'-' == letter)) [
  | inl k ↦ (bit, rw (e, h, k))
  | inr k ↦ (0, rw (e, h, k))
]

from_map-eq-ok :
    (attr : Text) (m : List (ℕ × ℕ)) (i c : ℕ) {v : ℕ}
    → get_elem? attr i ≡ some c
    → lookup_byte c m ≡ some v
    → from_map attr m i ≡ ok v
unfolding from_map
from_map-eq-ok attr m i c e h = rw (e, h)

then_ok :
    {A B : Type 0} {m : Outcome A} (f : A → Outcome B) {a : A}
    → m ≡ ok a
    → (b : B) × (f a ≡ ok b)
    → (b : B) × (m >>= f ≡ ok b)
then_ok f e (b, h) = (b, rw (e, h))

module _ (c0 c1 c2 c3 c4 c5 c6 c7 c8 c9 : ℕ) (rest : Text) where
  abbrev letters : Text
  letters = c0 ∷ c1 ∷ c2 ∷ c3 ∷ c4 ∷ c5 ∷ c6 ∷ c7 ∷ c8 ∷ c9 ∷ rest

  -- When parseLvAttrs accepts a text of ten letters or more, each of the seven letters with a table
  -- has its field from the table, and the field `fixed` is the number of the letters m, z and k at
  -- their places.
  pub parse_lv_attrs_lem :
      {a : LvAttrs}
      → parse_lv_attrs letters ≡ ok a
      → (lookup_byte c0 attr_vol_type_map ≡ some a.vol_type)
        × (lookup_byte c1 attr_permissions_map ≡ some a.permissions)
        × (lookup_byte c2 attr_alloc_policy_map ≡ some a.alloc_policy)
        × (lookup_byte c4 attr_state_map ≡ some a.state)
        × (lookup_byte c5 attr_device_map ≡ some a.device)
        × (lookup_byte c6 attr_target_type_map ≡ some a.target_type)
        × (lookup_byte c8 attr_health_map ≡ some a.health)
        × (a.fixed
            ≡ (if c3 == b'm' then 1 else 0)
              + (if c7 == b'z' then 1 else 0)
              + (if c9 == b'k' then 1 else 0))
  unfolding parse_lv_attrs from_map letter_or_dash
  parse_lv_attrs_lem h = ground arith

  -- A text is accepted by parseLvAttrs when the tables have its letters at the seven places with a
  -- table, and each of the other three of its first ten letters is a dash or the letter of its place.
  pub parse_lv_attrs-accepts :
      {v0 v1 v2 v4 v5 v6 v8 : ℕ}
      → lookup_byte c0 attr_vol_type_map ≡ some v0
      → lookup_byte c1 attr_permissions_map ≡ some v1
      → lookup_byte c2 attr_alloc_policy_map ≡ some v2
      → (c3 ≡ b'm') ⊎ (c3 ≡ b'-')
      → lookup_byte c4 attr_state_map ≡ some v4
      → lookup_byte c5 attr_device_map ≡ some v5
      → lookup_byte c6 attr_target_type_map ≡ some v6
      → (c7 ≡ b'z') ⊎ (c7 ≡ b'-')
      → lookup_byte c8 attr_health_map ≡ some v8
      → (c9 ≡ b'k') ⊎ (c9 ≡ b'-')
      → (a : LvAttrs) × (parse_lv_attrs letters ≡ ok a)
  unfolding parse_lv_attrs
  parse_lv_attrs-accepts h0 h1 h2 h3 h4 h5 h6 h7 h8 h9 =
      let (_, e3) = letter_or_dash-accepts letters 3 c3 b'm' _ refl h3 in
      let (_, e7) = letter_or_dash-accepts letters 7 c7 b'z' _ refl h7 in
      let (_, e9) = letter_or_dash-accepts letters 9 c9 b'k' _ refl h9 in
      then_ok _ (from_map-eq-ok letters _ 0 c0 refl h0) (
        then_ok _ (from_map-eq-ok letters _ 1 c1 refl h1) (
          then_ok _ (from_map-eq-ok letters _ 2 c2 refl h2) (
            then_ok _ e3 (
              then_ok _ (from_map-eq-ok letters _ 4 c4 refl h4) (
                then_ok _ (from_map-eq-ok letters _ 5 c5 refl h5) (
                  then_ok _ (from_map-eq-ok letters _ 6 c6 refl h6) (
                    then_ok _ e7 (
                      then_ok _ (from_map-eq-ok letters _ 8 c8 refl h8)
                        (then_ok _ e9 (_, refl))))))))))
