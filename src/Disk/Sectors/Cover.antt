-- ===== src/Disk/Sectors/Cover.antt =====
-- The sectors of `AvailableSectors` (core/disk/disk.go) are the space that no partition covers.
use albius.Base.{
  ℕ, ap, ◌+◌, ◌-◌, ◌^◌, ◌≤◌, ◌<◌, ◌≡◌, refl, ◌⊎◌, inl, inr, Bool-cases, some, List, [], ◌∷◌, ◌++◌,
  map, map-append, length, length-append, take, get_last?, Text, text, pos, format_nat, ◌==◌,
  int_eq, nat_eq, arith,
}
use albius.Base.Decimal.{atoi-format_nat}
use albius.Machine.Results.{ok}
use albius.Disk.Types.{Partition, Disk}
use albius.Disk.Sectors.{
  Sector, without_unit, position, end_failure, start_failure, last_failure, gaps, last_gap,
  available_sectors,
}
use albius.Disk.Sectors.Holes.{
  Extent, IsLayout, covers, gap, holes, le_or_lt, IsLayout-le, covers-holes_below, covers-holes,
}

-- A position as parted prints whole numbers of MiB
abbrev pub mib : ℕ → Text
mib n = format_nat n ++ text "MiB"

-- The partitions stand at the extents.
abbrev pub StandAt : List Partition → List Extent → Type 0
StandAt [] [] = Unit
StandAt [] (e ∷ es) = ⊥
StandAt (part ∷ parts) [] = ⊥
StandAt (part ∷ parts) (e ∷ es) =
    (part.start ≡ mib e.start) × (part.end ≡ mib e.end) × StandAt parts es

abbrev pub sector : Extent → Sector
sector e = record { start = pos e.start; end = pos e.end }

take_front : (s t : Text) → take (length s) (s ++ t) ≡ s
take_front [] t = refl
take_front (c ∷ s) t = ap (λ (u : Text). c ∷ u) (take_front s t)

without_unit-mib : (n : ℕ) → without_unit (mib n) ≡ some (format_nat n)
unfolding without_unit text
without_unit-mib n =
    let size : length (mib n) ≡ length (format_nat n) + 3 =
      length-append (format_nat n) (text "MiB") in
    let front : length (mib n) - 3 ≡ length (format_nat n) = omega arith in
    rw (front, take_front (format_nat n) (text "MiB")) (ground arith)

position-mib : (n : ℕ) (failure : Text) → n < 2 ^ 63 → position (mib n) failure ≡ ok (pos n)
unfolding position
position-mib n failure h = rw (without_unit-mib n, atoi-format_nat n h)

-- The space between the partitions, and behind the last one, as the code finds it
between : ℕ → List Extent → List Extent
between end [] = []
between end (e ∷ es) = gap end e.start (between e.end es)

last_end : ℕ → List Extent → ℕ
last_end end [] = end
last_end end (e ∷ es) = last_end e.end es

holes-between :
    (end : ℕ) (es : List Extent) (high : ℕ)
    → holes end es high ≡ between end es ++ gap (last_end end es) high []
unfolding holes between last_end gap
holes-between end [] high = refl
holes-between end (e ∷ es) high =
    rw (holes-between e.end es high)
      (elim (Bool-cases (end == e.start)) [ inl same ↦ rw same | inr differ ↦ rw differ ])

gaps-between :
    (part : Partition) (parts : List Partition) (e : Extent) (es : List Extent) (high : ℕ)
    → StandAt (part ∷ parts) (e ∷ es)
    → IsLayout e.end es high
    → high < 2 ^ 63
    → gaps (part ∷ parts) ≡ ok (map sector (between e.end es))
unfolding gaps between gap
gaps-between part [] e [] high (at_start, at_end, _) h small =
    rw (at_end, position-mib e.end end_failure (omega arith))
gaps-between part (next ∷ parts) e (f ∷ es) high (at_start, at_end, rest) (a, b, h) small =
    let bound : f.end ≤ high = IsLayout-le f.end es high h in
    rw
      (
        at_end,
        position-mib e.end end_failure (omega arith),
        rest.0,
        position-mib f.start start_failure (omega arith),
        gaps-between next parts f es high rest h small,
      )
      (elim (Bool-cases (e.end == f.start)) [ inl same ↦ rw same | inr differ ↦ rw differ ])
gaps-between part [] e (f ∷ es) high (at_start, at_end, rest) h small = elim rest [ ]
gaps-between part (next ∷ parts) e [] high (at_start, at_end, rest) h small = elim rest [ ]

last_end-StandAt :
    (part : Partition) (parts : List Partition) (e : Extent) (es : List Extent)
    → StandAt (part ∷ parts) (e ∷ es)
    → (last : Partition) × (get_last? (part ∷ parts) ≡ some last)
      × (last.end ≡ mib (last_end e.end es))
unfolding last_end
last_end-StandAt part [] e [] (at_start, at_end, _) = (part, refl, at_end)
last_end-StandAt part (next ∷ parts) e (f ∷ es) (at_start, at_end, rest) =
    last_end-StandAt next parts f es rest
last_end-StandAt part [] e (f ∷ es) (at_start, at_end, rest) = elim rest [ ]
last_end-StandAt part (next ∷ parts) e [] (at_start, at_end, rest) = elim rest [ ]

last_end-le :
    (end : ℕ) (es : List Extent) (high : ℕ) → IsLayout end es high → last_end end es ≤ high
unfolding last_end
last_end-le end [] high h = h
last_end-le end (e ∷ es) high (a, b, h) = last_end-le e.end es high h

last_gap_lem :
    (disk : Disk) (e : Extent) (es : List Extent) (high : ℕ) (last : Partition)
    → get_last? disk.partitions ≡ some last
    → last.end ≡ mib (last_end e.end es)
    → disk.size ≡ mib high
    → last_end e.end es ≤ high
    → high < 2 ^ 63
    → last_gap disk ≡ ok (map sector (gap (last_end e.end es) high []))
unfolding last_gap gap
last_gap_lem disk e es high last is_last at_end size le small =
    rw
      (
        is_last,
        at_end,
        position-mib (last_end e.end es) last_failure (omega arith),
        size,
        without_unit-mib high,
        atoi-format_nat high small,
      )
      (elim (Bool-cases (last_end e.end es == high)) [
        | inl same ↦ rw same (ground arith)
        | inr differ ↦ rw differ (ground arith)
      ])

available_sectors_lem :
    (disk : Disk) (part : Partition) (parts : List Partition) (e : Extent) (es : List Extent)
    (high : ℕ)
    → disk.partitions ≡ part ∷ parts
    → StandAt (part ∷ parts) (e ∷ es)
    → disk.size ≡ mib high
    → IsLayout e.end es high
    → high < 2 ^ 63
    → available_sectors disk ≡ ok (map sector (holes e.end es high))
unfolding available_sectors
available_sectors_lem disk part parts e es high is_parts stand size h small =
    let (last, is_last, at_end) = last_end-StandAt part parts e es stand in
    let found : gaps disk.partitions ≡ ok (map sector (between e.end es)) =
      rw is_parts (gaps-between part parts e es high stand h small) in
    rw (
      found,
      last_gap_lem disk e es high last (rw is_parts is_last) at_end size
          (last_end-le e.end es high h) small,
      holes-between e.end es high,
      map-append,
    )

-- On a disk of `high` MiB whose partitions follow one another, AvailableSectors gives extents such
-- that from the first partition to the end of the disk each position lies in one partition or in
-- one extent, and that no extent holds a position in front of that or behind it.
pub available_sectors-covers :
    (disk : Disk) (part : Partition) (parts : List Partition) (e : Extent) (es : List Extent)
    (high : ℕ)
    → disk.partitions ≡ part ∷ parts
    → StandAt (part ∷ parts) (e ∷ es)
    → disk.size ≡ mib high
    → IsLayout e.start (e ∷ es) high
    → high < 2 ^ 63
    → (free : List Extent) × (available_sectors disk ≡ ok (map sector free))
      × ((x : ℕ) → e.start ≤ x → x < high → covers x (e ∷ es) + covers x free ≡ 1)
      × ((x : ℕ) → (x < e.start) ⊎ (high ≤ x) → covers x free ≡ 0)
unfolding covers
available_sectors-covers disk part parts e es high is_parts stand size (a, b, h) small = (
  holes e.end es high,
  available_sectors_lem disk part parts e es high is_parts stand size h small,
  λ x low lt. elim (le_or_lt e.end x) [
    | inl behind ↦ ground (arith, covers-holes x e.end high es h behind)
    | inr before ↦ ground (arith, covers-holes_below x e.end high es h before)
  ],
  λ x out. elim out [
    | inl front ↦ (covers-holes_below x e.end high es h (omega arith)).1
    | inr behind ↦
        let le : e.end ≤ high = IsLayout-le e.end es high h in
        ground (arith, covers-holes x e.end high es h (omega arith))
  ],
)
