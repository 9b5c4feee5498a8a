-- ===== src/Lvm/Attrs/Pvs.antt =====
-- What the tests of core/lvm/pv.go say of an attribute text.
use albius.Base.{ℕ, ◌≡◌, not, ◌∷◌, Text, ◌==◌, nat_eq, arith}
use albius.Machine.Results.{ok}
use albius.Lvm.Attrs.{
  parse_pv_attrs, has_bit, pv_attr_missing, pv_attr_exported, pv_attr_duplicate,
  pv_attr_allocatable, pv_attr_used,
}

-- The five tests of a parsed attribute text are the tests on its letters.
pub has_bit-parse_pv_attrs :
    (c0 c1 c2 : ℕ) (rest : Text) {attr : ℕ}
    → parse_pv_attrs (c0 ∷ c1 ∷ c2 ∷ rest) ≡ ok attr
    → (has_bit attr pv_attr_missing ≡ not (c2 == b'-'))
      × (has_bit attr pv_attr_exported ≡ not (c1 == b'-'))
      × (has_bit attr pv_attr_duplicate ≡ (c0 == b'd'))
      × (has_bit attr pv_attr_allocatable ≡ (c0 == b'a'))
      × (has_bit attr pv_attr_used ≡ (c0 == b'u'))
unfolding parse_pv_attrs has_bit
has_bit-parse_pv_attrs c0 c1 c2 rest h = ground arith
