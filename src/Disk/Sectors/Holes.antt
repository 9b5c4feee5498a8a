-- ===== src/Disk/Sectors/Holes.antt =====
-- Layouts of a line of positions, by which the extents of core/disk/disk.go are counted.
use albius.Base.{
  ℕ, ◌+◌, ◌≤◌, ◌<◌, ◌≡◌, refl, ◌⊎◌, inl, inr, Bool-cases, ◌&&◌, List, [], ◌∷◌, ltb, leb, ◌==◌,
  int_eq, nat_eq, if◌then◌else◌, arith,
}

-- The space from `start` up to `end`, without `end`
pub record Extent : Type 0 where
  pub start : ℕ
  pub end : ℕ

-- The extents follow one another from `low` on, and end at `high` at the latest.
abbrev pub IsLayout : ℕ → List Extent → ℕ → Type 0
IsLayout low [] high = low ≤ high
IsLayout low (e ∷ es) high = (low ≤ e.start) × (e.start ≤ e.end) × IsLayout e.end es high

-- How many of the extents hold a position
unfoldable pub covers : ℕ → List Extent → ℕ
covers x [] = 0
covers x (e ∷ es) = (if leb e.start x && ltb x e.end then 1 else 0) + covers x es

unfoldable pub gap : ℕ → ℕ → List Extent → List Extent
gap a b rest = if a == b then rest else record { start = a; end = b } ∷ rest

-- What the extents leave free from `low` to `high`
unfoldable pub holes : ℕ → List Extent → ℕ → List Extent
holes low [] high = gap low high []
holes low (e ∷ es) high = gap low e.start (holes e.end es high)

pub le_or_lt : (a b : ℕ) → (a ≤ b) ⊎ (b < a)
le_or_lt a b = grind arith

pub IsLayout-le : (low : ℕ) (es : List Extent) (high : ℕ) → IsLayout low es high → low ≤ high
IsLayout-le low [] high h = h
IsLayout-le low (e ∷ es) high (a, b, h) = omega (arith, IsLayout-le e.end es high h)

-- 1 if the position lies from `a` up to `b`, and 0 if not
abbrev pub inside : ℕ → ℕ → ℕ → ℕ
inside x a b = if leb a x && ltb x b then 1 else 0

covers-gap :
    (x a b : ℕ) (rest : List Extent)
    → a ≤ b
    → covers x (gap a b rest) ≡ inside x a b + covers x rest
unfolding covers gap
covers-gap x a b rest h = elim (Bool-cases (a == b)) [
  | inl same ↦ rw same (ground arith)
  | inr differ ↦ rw differ
]

pub covers-holes_below :
    (x low high : ℕ) (es : List Extent)
    → IsLayout low es high
    → x < low
    → (covers x es ≡ 0) × (covers x (holes low es high) ≡ 0)
unfolding covers holes
covers-holes_below x low high [] h lt = (refl, rw (covers-gap x low high [] h) (ground arith))
covers-holes_below x low high (e ∷ es) (a, b, h) lt =
    let (none_in, none_free) = covers-holes_below x e.end high es h (omega arith) in
    (
      rw none_in (ground arith),
      rw (covers-gap x low e.start (holes e.end es high) a, none_free) (ground arith),
    )

-- Between the ends of a layout every position is covered once, by an extent or by a hole.
pub covers-holes :
    (x low high : ℕ) (es : List Extent)
    → IsLayout low es high
    → low ≤ x
    → covers x es + covers x (holes low es high) ≡ inside x low high
unfolding covers holes
covers-holes x low high [] h le = rw (covers-gap x low high [] h) (ground arith)
covers-holes x low high (e ∷ es) (a, b, h) le =
    rw (covers-gap x low e.start (holes e.end es high) a) (elim (le_or_lt e.end x) [
      | inl behind ↦
          ground (arith, covers-holes x e.end high es h behind, IsLayout-le e.end es high h)
      | inr before ↦
          ground (arith, covers-holes_below x e.end high es h before, IsLayout-le e.end es high h)
    ])
