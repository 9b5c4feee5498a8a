-- ===== src/Disk/Sectors.antt =====
-- The free space of a disk: `AvailableSectors` of core/disk/disk.go.
pub mod Cover
pub mod Holes
use albius.Base.{
  ℕ, ◌-◌, zero, suc, Bool, true, false, Option, none, some, List, [], ◌∷◌, ◌++◌, Text, text, length,
  take, get_last?, ltb, ℤ, pos, negsuc, int_ltb, atoi, ◌==◌, int_eq, if◌then◌else◌,
}
use albius.Machine.Results.{
  Error, message, not_number, wrap, Outcome, ok, err, ◌>>=◌, or_panic, or_err,
}
use albius.Disk.Types.{Partition, Disk}

pub record Sector : Type 0 where
  pub start : ℤ
  pub end : ℤ

-- s[:len(s)-3], which panics at a shorter text
unfoldable pub without_unit : Text → Option Text
without_unit s = if ltb (length s) 3 then none else some (take (length s - 3) s)

-- A position such as `25MiB` as a number
unfoldable pub position : Text → Text → Outcome ℤ
unfolding without_unit
position s failure = do
  digits ← or_panic (without_unit s)
  or_err (atoi digits) (wrap failure (not_number digits))

abbrev pub end_failure : Text
end_failure = text "failed to retrieve end position of partition: "

abbrev pub start_failure : Text
start_failure = text "failed to retrieve start position of next partition: "

abbrev pub last_failure : Text
last_failure = text "failed to retrieve end position of last partition: "

-- The loop over the partitions: the space between one and the next.
unfoldable pub gaps : List Partition → Outcome (List Sector)
gaps [] = ok []
gaps (part ∷ []) = do end ← position part.end end_failure; ok []
gaps (part ∷ next ∷ parts) = do
  end ← position part.end end_failure
  start ← position next.start start_failure
  rest ← gaps (next ∷ parts)
  ok (if end == start then rest else record { start = end; end = start } ∷ rest)

-- The space behind the last partition
unfoldable pub last_gap : Disk → Outcome (List Sector)
last_gap disk = do
  part ← or_panic (get_last? disk.partitions)
  last_end ← position part.end last_failure
  digits ← or_panic (without_unit disk.size)
  disk_end ← or_err (atoi digits) (message (text "failed to retrieve disk end"))
  ok (if int_ltb last_end disk_end then record { start = last_end; end = disk_end } ∷ [] else [])

-- AvailableSectors
unfoldable pub available_sectors : Disk → Outcome (List Sector)
available_sectors disk = do
  between ← gaps disk.partitions
  behind ← last_gap disk
  ok (between ++ behind)
