-- ===== src/Lvm/Attrs.antt =====
-- The attribute texts of `pvs`, `vgs` and `lvs`: parsePvAttrs (core/lvm/pv.go), parseVgAttrs
-- (core/lvm/vg.go) and parseLvAttrs (core/lvm/lv.go), and the tests on the results.
pub mod Pvs
pub mod Vgs
pub mod Lvs
use Prim.Native.Nat.{bit_and}
use albius.Base.{
  ℕ, zero, ◌+◌, ◌^◌, Bool, Option, none, some, List, [], ◌∷◌, Text, text, format, ltb, ◌==◌, nat_eq,
  if◌then◌else◌,
}
use albius.Machine.Results.{Error, message, Outcome, ok, err, ◌>>=◌, index, or_err}
use albius.Lvm.Bits.{
  lv_attr_fixed_minor, lv_attr_blocks_are_overwritten_with_zeroes_before_use,
  lv_attr_skip_activation, attr_vol_type_map, attr_permissions_map, attr_alloc_policy_map,
  attr_state_map, attr_device_map, attr_target_type_map, attr_health_map,
}

-- `attrVal += bit` where the letter is not a dash
unfoldable pub unless_dash : ℕ → ℕ → ℕ
unless_dash c bit = if c == b'-' then 0 else bit

-- attr & bit > 0
unfoldable pub has_bit : ℕ → ℕ → Bool
has_bit attr bit = ltb 0 (bit_and attr bit)

invalid : Text → Text → Error
invalid kind attr = message (format (text "invalid " ∷ kind ∷ text ": " ∷ attr ∷ []))

abbrev pub pv_attr_missing : ℕ
pv_attr_missing = 2 ^ 0

abbrev pub pv_attr_exported : ℕ
pv_attr_exported = 2 ^ 1

abbrev pub pv_attr_duplicate : ℕ
pv_attr_duplicate = 2 ^ 2

abbrev pub pv_attr_allocatable : ℕ
pv_attr_allocatable = 2 ^ 3

abbrev pub pv_attr_used : ℕ
pv_attr_used = 2 ^ 4

pv_use : Text → ℕ → Outcome ℕ
unfolding invalid
pv_use attr c =
    if c == b'd'
    then ok pv_attr_duplicate
    else if c == b'a'
    then ok pv_attr_allocatable
    else if c == b'u'
    then ok pv_attr_used
    else if c == b'-'
    then ok 0
    else err (invalid (text "pv_attr") attr)

-- parsePvAttrs
unfoldable pub parse_pv_attrs : Text → Outcome ℕ
unfolding pv_use unless_dash
parse_pv_attrs attr = do
  c2 ← index attr 2
  c1 ← index attr 1
  c0 ← index attr 0
  used ← pv_use attr c0
  ok (unless_dash c2 pv_attr_missing + unless_dash c1 pv_attr_exported + used)

abbrev pub vg_attr_writable : ℕ
vg_attr_writable = 2 ^ 0

abbrev pub vg_attr_readonly : ℕ
vg_attr_readonly = 2 ^ 1

abbrev pub vg_attr_resizable : ℕ
vg_attr_resizable = 2 ^ 2

abbrev pub vg_attr_exported : ℕ
vg_attr_exported = 2 ^ 3

abbrev pub vg_attr_partial : ℕ
vg_attr_partial = 2 ^ 4

abbrev pub vg_attr_contiguous : ℕ
vg_attr_contiguous = 2 ^ 5

abbrev pub vg_attr_cling : ℕ
vg_attr_cling = 2 ^ 6

abbrev pub vg_attr_normal : ℕ
vg_attr_normal = 2 ^ 7

abbrev pub vg_attr_anywhere : ℕ
vg_attr_anywhere = 2 ^ 8

abbrev pub vg_attr_clustered : ℕ
vg_attr_clustered = 2 ^ 9

abbrev pub vg_attr_shared : ℕ
vg_attr_shared = 2 ^ 10

vg_sharing : Text → ℕ → Outcome ℕ
unfolding invalid
vg_sharing attr c =
    if c == b'c'
    then ok vg_attr_clustered
    else if c == b's'
    then ok vg_attr_shared
    else if c == b'-'
    then ok 0
    else err (invalid (text "vg_attr") attr)

vg_allocation : Text → ℕ → Outcome ℕ
unfolding invalid
vg_allocation attr c =
    if c == b'c'
    then ok vg_attr_contiguous
    else if c == b'l'
    then ok vg_attr_cling
    else if c == b'n'
    then ok vg_attr_normal
    else if c == b'a'
    then ok vg_attr_anywhere
    else err (invalid (text "vg_attr") attr)

vg_access : Text → ℕ → Outcome ℕ
unfolding invalid
vg_access attr c =
    if c == b'w'
    then ok vg_attr_writable
    else if c == b'r'
    then ok vg_attr_readonly
    else err (invalid (text "vg_attr") attr)

-- parseVgAttrs
unfoldable pub parse_vg_attrs : Text → Outcome ℕ
unfolding vg_sharing vg_allocation vg_access unless_dash
parse_vg_attrs attr = do
  c5 ← index attr 5
  sharing ← vg_sharing attr c5
  c4 ← index attr 4
  allocation ← vg_allocation attr c4
  c3 ← index attr 3
  c2 ← index attr 2
  c1 ← index attr 1
  c0 ← index attr 0
  access ← vg_access attr c0
  ok (
      sharing
      + allocation
      + unless_dash c3 vg_attr_partial
      + unless_dash c2 vg_attr_exported
      + unless_dash c1 vg_attr_resizable
      + access)

-- The array that parseLvAttrs returns, by its places.
pub record LvAttrs : Type 0 where
  pub vol_type : ℕ
  pub permissions : ℕ
  pub alloc_policy : ℕ
  pub fixed : ℕ
  pub state : ℕ
  pub device : ℕ
  pub target_type : ℕ
  pub blocks : ℕ
  pub health : ℕ
  pub skip : ℕ

unfoldable pub lookup_byte : ℕ → List (ℕ × ℕ) → Option ℕ
lookup_byte c [] = none
lookup_byte c ((k, v) ∷ m) = if c == k then some v else lookup_byte c m

-- An index into a map of letters, with its `ok` tested.
unfoldable pub from_map : Text → List (ℕ × ℕ) → ℕ → Outcome ℕ
unfolding invalid
from_map attr m i = do c ← index attr i; or_err (lookup_byte c m) (invalid (text "lv_attr") attr)

-- The bit that a letter stands for, where a dash stands for none.
unfoldable pub letter_or_dash : Text → ℕ → ℕ → ℕ → Outcome ℕ
unfolding invalid
letter_or_dash attr i letter bit = do
  c ← index attr i
  if c == letter then ok bit else if c == b'-' then ok 0 else err (invalid (text "lv_attr") attr)

-- parseLvAttrs. The bits for zeroed blocks and for skipped activation are added to `attrFixed`.
unfoldable pub parse_lv_attrs : Text → Outcome LvAttrs
parse_lv_attrs attr = do
  vol_type ← from_map attr attr_vol_type_map 0
  permissions ← from_map attr attr_permissions_map 1
  alloc_policy ← from_map attr attr_alloc_policy_map 2
  minor ← letter_or_dash attr 3 b'm' lv_attr_fixed_minor
  state ← from_map attr attr_state_map 4
  device ← from_map attr attr_device_map 5
  target_type ← from_map attr attr_target_type_map 6
  zeroed ← letter_or_dash attr 7 b'z' lv_attr_blocks_are_overwritten_with_zeroes_before_use
  health ← from_map attr attr_health_map 8
  skipped ← letter_or_dash attr 9 b'k' lv_attr_skip_activation
  ok (record {
    vol_type = vol_type;
    permissions = permissions;
    alloc_policy = alloc_policy;
    fixed = minor + zeroed + skipped;
    state = state;
    device = device;
    target_type = target_type;
    blocks = 0;
    health = health;
    skip = 0;
  })
