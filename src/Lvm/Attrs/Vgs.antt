-- ===== src/Lvm/Attrs/Vgs.antt =====
-- What the tests of core/lvm/vg.go say of an attribute text.
use albius.Base.{ℕ, ◌≡◌, not, Text, ◌∷◌, ◌==◌, nat_eq, arith}
use albius.Machine.Results.{ok}
use albius.Lvm.Attrs.{
  parse_vg_attrs, has_bit, vg_attr_writable, vg_attr_readonly, vg_attr_resizable, vg_attr_exported,
  vg_attr_partial, vg_attr_contiguous, vg_attr_cling, vg_attr_normal, vg_attr_anywhere,
  vg_attr_clustered, vg_attr_shared,
}

-- The access, resizing, export and completeness tests
has_bit-parse_vg_attrs_flags :
    (c0 c1 c2 c3 c4 c5 : ℕ) (rest : Text) {attr : ℕ}
    → parse_vg_attrs (c0 ∷ c1 ∷ c2 ∷ c3 ∷ c4 ∷ c5 ∷ rest) ≡ ok attr
    → (has_bit attr vg_attr_writable ≡ (c0 == b'w'))
      × (has_bit attr vg_attr_readonly ≡ (c0 == b'r'))
      × (has_bit attr vg_attr_resizable ≡ not (c1 == b'-'))
      × (has_bit attr vg_attr_exported ≡ not (c2 == b'-'))
      × (has_bit attr vg_attr_partial ≡ not (c3 == b'-'))
unfolding parse_vg_attrs has_bit
has_bit-parse_vg_attrs_flags c0 c1 c2 c3 c4 c5 rest h = ground arith

-- The allocation and sharing tests
has_bit-parse_vg_attrs_policy :
    (c0 c1 c2 c3 c4 c5 : ℕ) (rest : Text) {attr : ℕ}
    → parse_vg_attrs (c0 ∷ c1 ∷ c2 ∷ c3 ∷ c4 ∷ c5 ∷ rest) ≡ ok attr
    → (has_bit attr vg_attr_contiguous ≡ (c4 == b'c'))
      × (has_bit attr vg_attr_cling ≡ (c4 == b'l'))
      × (has_bit attr vg_attr_normal ≡ (c4 == b'n'))
      × (has_bit attr vg_attr_anywhere ≡ (c4 == b'a'))
      × (has_bit attr vg_attr_clustered ≡ (c5 == b'c'))
      × (has_bit attr vg_attr_shared ≡ (c5 == b's'))
unfolding parse_vg_attrs has_bit
has_bit-parse_vg_attrs_policy c0 c1 c2 c3 c4 c5 rest h = ground arith

-- The eleven tests of a parsed attribute text are the tests on its letters.
pub has_bit-parse_vg_attrs :
    (c0 c1 c2 c3 c4 c5 : ℕ) (rest : Text) {attr : ℕ}
    → parse_vg_attrs (c0 ∷ c1 ∷ c2 ∷ c3 ∷ c4 ∷ c5 ∷ rest) ≡ ok attr
    → (has_bit attr vg_attr_writable ≡ (c0 == b'w'))
      × (has_bit attr vg_attr_readonly ≡ (c0 == b'r'))
      × (has_bit attr vg_attr_resizable ≡ not (c1 == b'-'))
      × (has_bit attr vg_attr_exported ≡ not (c2 == b'-'))
      × (has_bit attr vg_attr_partial ≡ not (c3 == b'-'))
      × (has_bit attr vg_attr_contiguous ≡ (c4 == b'c'))
      × (has_bit attr vg_attr_cling ≡ (c4 == b'l'))
      × (has_bit attr vg_attr_normal ≡ (c4 == b'n'))
      × (has_bit attr vg_attr_anywhere ≡ (c4 == b'a'))
      × (has_bit attr vg_attr_clustered ≡ (c5 == b'c'))
      × (has_bit attr vg_attr_shared ≡ (c5 == b's'))
has_bit-parse_vg_attrs c0 c1 c2 c3 c4 c5 rest h =
    let (writable, readonly, resizable, exported, partial) =
      has_bit-parse_vg_attrs_flags c0 c1 c2 c3 c4 c5 rest h in
    let (contiguous, cling, normal, anywhere, clustered, shared) =
      has_bit-parse_vg_attrs_policy c0 c1 c2 c3 c4 c5 rest h in
    (
      writable, readonly, resizable, exported, partial, contiguous, cling, normal, anywhere,
      clustered, shared,
    )
