-- ===== src/Tests/Volumes.antt =====
-- Attribute texts and reports of LVM
use albius.Base.{
  inl, inr, ◌+◌, ◌≡◌, refl, true, false, none, some, [], ◌∷◌, Text, text, split, join, has_prefix,
  pos, atoi, eqb, if◌then◌else◌, arith,
}
use albius.Machine.Results.{ok}
use albius.Lvm.Bits.{
  attr_vol_type_map, attr_permissions_map, attr_alloc_policy_map, attr_state_map, attr_device_map,
  attr_target_type_map, attr_health_map,
}
use albius.Lvm.Attrs.{
  LvAttrs, has_bit, parse_pv_attrs, parse_vg_attrs, parse_lv_attrs, from_map, letter_or_dash,
  lookup_byte,
}
use albius.Lvm.Attrs.Pvs.{has_bit-parse_pv_attrs}
use albius.Lvm.Attrs.Vgs.{has_bit-parse_vg_attrs}
use albius.Lvm.Attrs.Lvs.{parse_lv_attrs_drops, parse_lv_attrs_lem, parse_lv_attrs-accepts}
use albius.Lvm.Reports.{parse_pvs}
use albius.Lvm.Reports.RoundTrip.{
  Row, IsRow, line, indented, parse_pvs-report, parse_pvs-report_indented,
}
use albius.Tests.Scripted.{scripted}
use albius.Machine.{Platform}

abbrev machine : Platform
machine = scripted [] (λ t. none)

-- A linear volume that zeroes its blocks and is skipped at activation
abbrev zeroed : LvAttrs
zeroed = record {
  vol_type = 0;
  permissions = 1;
  alloc_policy = 4;
  fixed = 2;
  state = 1;
  device = 0;
  target_type = 0;
  blocks = 0;
  health = 0;
  skip = 0;
}

parse_lv_attrs-zeroed : parse_lv_attrs (text "-wi-a--z-k") ≡ ok zeroed
unfolding parse_lv_attrs from_map letter_or_dash lookup_byte text attr_vol_type_map
    attr_permissions_map attr_alloc_policy_map attr_state_map attr_device_map attr_target_type_map
    attr_health_map
parse_lv_attrs-zeroed = refl

parse_lv_attrs_drops_example : (zeroed.blocks ≡ 0) × (zeroed.skip ≡ 0)
parse_lv_attrs_drops_example =
    parse_lv_attrs_drops (text "-wi-a--z-k") {a = zeroed} parse_lv_attrs-zeroed

parse_lv_attrs_lem_example :
    (lookup_byte b'-' attr_vol_type_map ≡ some 0)
    × (lookup_byte b'w' attr_permissions_map ≡ some 1)
    × (lookup_byte b'i' attr_alloc_policy_map ≡ some 4)
    × (lookup_byte b'a' attr_state_map ≡ some 1)
    × (lookup_byte b'-' attr_device_map ≡ some 0)
    × (lookup_byte b'-' attr_target_type_map ≡ some 0)
    × (lookup_byte b'-' attr_health_map ≡ some 0)
    × (zeroed.fixed
        ≡ (if eqb b'-' b'm' then 1 else 0)
          + (if eqb b'z' b'z' then 1 else 0)
          + (if eqb b'k' b'k' then 1 else 0))
unfolding text
parse_lv_attrs_lem_example =
    parse_lv_attrs_lem b'-' b'w' b'i' b'-' b'a' b'-' b'-' b'z' b'-' b'k' [] {a = zeroed}
      parse_lv_attrs-zeroed

pv_attrs : parse_pv_attrs (text "a--") ≡ ok 8
unfolding parse_pv_attrs text
pv_attrs = refl

has_bit-parse_pv_attrs_example :
    (has_bit 8 1 ≡ false)
    × (has_bit 8 2 ≡ false)
    × (has_bit 8 4 ≡ false)
    × (has_bit 8 8 ≡ true)
    × (has_bit 8 16 ≡ false)
unfolding text
has_bit-parse_pv_attrs_example = has_bit-parse_pv_attrs b'a' b'-' b'-' [] {attr = 8} pv_attrs

vg_attrs : parse_vg_attrs (text "wz--n-") ≡ ok 133
unfolding parse_vg_attrs text
vg_attrs = refl

has_bit-parse_vg_attrs_example :
    (has_bit 133 1 ≡ true)
    × (has_bit 133 2 ≡ false)
    × (has_bit 133 4 ≡ true)
    × (has_bit 133 8 ≡ false)
    × (has_bit 133 16 ≡ false)
    × (has_bit 133 32 ≡ false)
    × (has_bit 133 64 ≡ false)
    × (has_bit 133 128 ≡ true)
    × (has_bit 133 256 ≡ false)
    × (has_bit 133 512 ≡ false)
    × (has_bit 133 1024 ≡ false)
unfolding text
has_bit-parse_vg_attrs_example =
    has_bit-parse_vg_attrs b'w' b'z' b'-' b'-' b'n' b'-' [] {attr = 133} vg_attrs

abbrev row : Text → Row ⦃P = machine⦄
row path = record {
  pv = record {
    path = path;
    vg_name = text "vg";
    pv_fmt = text "lvm2";
    attr = 8;
    size = pos 100;
    free = pos 40;
  };
  attr = text "a--";
  size = text "100";
  free = text "40";
}

abbrev sda1 : Row ⦃P = machine⦄
sda1 = row (text "/dev/sda1")

abbrev sdb1 : Row ⦃P = machine⦄
sdb1 = row (text "/dev/sdb1")

sda1-IsRow : IsRow ⦃P = machine⦄ sda1
unfolding text has_prefix parse_pv_attrs atoi
sda1-IsRow = record {
  no_comma = omega arith;
  no_newline = omega arith;
  is_path = refl;
  reads_attr = refl;
  reads_size = refl;
  reads_free = refl;
}

sdb1-IsRow : IsRow ⦃P = machine⦄ sdb1
unfolding text has_prefix parse_pv_attrs atoi
sdb1-IsRow = record {
  no_comma = omega arith;
  no_newline = omega arith;
  is_path = refl;
  reads_attr = refl;
  reads_size = refl;
  reads_free = refl;
}

parse_pvs-report_example :
    parse_pvs ⦃P = machine⦄
      (split b'\n' (join (line ⦃P = machine⦄ sda1 ∷ line ⦃P = machine⦄ sdb1 ∷ []) (b'\n' ∷ [])))
    ≡ ok (sda1.pv ∷ sdb1.pv ∷ [])
parse_pvs-report_example =
    parse_pvs-report ⦃P = machine⦄ sda1 (sdb1 ∷ []) (sda1-IsRow, (sdb1-IsRow, tt))

parse_pvs-report_indented_example :
    parse_pvs ⦃P = machine⦄
      (split b'\n' (join (line ⦃P = machine⦄ sda1 ∷ indented ⦃P = machine⦄ sdb1 ∷ []) (b'\n' ∷ [])))
    ≡ ok (sda1.pv ∷ [])
parse_pvs-report_indented_example =
    parse_pvs-report_indented ⦃P = machine⦄ sda1 (sdb1 ∷ []) (sda1-IsRow, (sdb1-IsRow, tt))

parse_lv_attrs-accepts_example : (a : LvAttrs) × (parse_lv_attrs (text "-wi-a--z-k") ≡ ok a)
unfolding text lookup_byte attr_vol_type_map attr_permissions_map attr_alloc_policy_map
    attr_state_map attr_device_map attr_target_type_map attr_health_map
parse_lv_attrs-accepts_example =
    parse_lv_attrs-accepts b'-' b'w' b'i' b'-' b'a' b'-' b'-' b'z' b'-' b'k' [] {v0 = 0} {v1 = 1}
      {v2 = 4} {v4 = 1} {v5 = 0} {v6 = 0} {v8 = 0} refl refl refl (inr refl) refl refl refl
      (inl refl) refl (inl refl)
