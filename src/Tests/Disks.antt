-- ===== src/Tests/Disks.antt =====
-- Paths and sectors
use albius.Base.{
  ◌++◌, ℕ, ◌+◌, ◌≤◌, ◌<◌, ◌≡◌, ◌≢◌, ◌⊎◌, refl, some, List, [], ◌∷◌, map, Text, text, pos,
  format_nat, atoi, arith,
}
use albius.Machine.Results.{ok}
use albius.Disk.Types.{Partition, Disk, partition_at}
use albius.Util.{separate_disk_part}
use albius.Disk.Partition.{filled_path}
use albius.Disk.Partition.Paths.{
  letter_disk, namespace_disk, digit_disk, separate-filled_path_letters,
  separate-filled_path_namespace, separate-filled_path_digits,
}
use albius.Disk.Sectors.{available_sectors, gaps, last_gap, position}
use albius.Disk.Sectors.Holes.{Extent, covers}
use albius.Disk.Sectors.Cover.{mib, sector, available_sectors-covers}

separate-filled_path_letters_example :
    (path : Text) × (filled_path (letter_disk b's' (b'd' ∷ b'a' ∷ [])) (pos 12) ≡ some path)
    × (separate_disk_part path ≡ (letter_disk b's' (b'd' ∷ b'a' ∷ []), format_nat 12))
separate-filled_path_letters_example =
    separate-filled_path_letters b's' (b'd' ∷ b'a' ∷ []) 12 (ground arith)

separate-filled_path_namespace_example :
    let disk = namespace_disk b'n' (b'v' ∷ b'm' ∷ b'e' ∷ []) (b'0' ∷ []) b'n' (b'1' ∷ []) in
    (path : Text) × (filled_path disk (pos 3) ≡ some path)
    × (separate_disk_part path ≡ (disk, format_nat 3))
separate-filled_path_namespace_example =
    separate-filled_path_namespace b'n' (b'v' ∷ b'm' ∷ b'e' ∷ []) b'0' [] b'n' b'1' [] 3
      (ground arith) (refl, tt) refl (refl, tt)

separate-filled_path_digits_example :
    let disk = digit_disk b'm' (b'm' ∷ b'c' ∷ []) (b'0' ∷ []) in
    let path = disk ++ (text "p" ++ format_nat 1) in
    (filled_path disk (pos 1) ≡ some path)
    × (separate_disk_part path ≡ (path, format_nat 1))
    × (path ≢ disk)
separate-filled_path_digits_example =
    separate-filled_path_digits b'm' (b'm' ∷ b'c' ∷ []) b'0' [] 1 (ground arith) (refl, tt)

abbrev boot_part : Partition
boot_part = record (partition_at (text "/dev/sda1") (text "ext4")) { start = mib 1; end = mib 25 }

abbrev data_part : Partition
data_part = record (partition_at (text "/dev/sda2") (text "btrfs")) { start = mib 30; end = mib 90 }

abbrev two_parts : Disk
two_parts = record {
  path = text "/dev/sda";
  size = mib 100;
  model = [];
  transport = [];
  label = text "gpt";
  logical_sector_size = pos 512;
  physical_sector_size = pos 512;
  max_partitions = pos 128;
  partitions = boot_part ∷ data_part ∷ [];
}

abbrev boot_extent : Extent
boot_extent = record { start = 1; end = 25 }

abbrev data_extent : Extent
data_extent = record { start = 30; end = 90 }

two_parts_sectors :
    available_sectors two_parts
    ≡ ok (record { start = pos 25; end = pos 30 } ∷ record { start = pos 90; end = pos 100 } ∷ [])
unfolding available_sectors gaps last_gap position format_nat atoi text
two_parts_sectors = refl

available_sectors-covers_example :
    (free : List Extent) × (available_sectors two_parts ≡ ok (map sector free))
    × ((x : ℕ) → 1 ≤ x → x < 100 → covers x (boot_extent ∷ data_extent ∷ []) + covers x free ≡ 1)
    × ((x : ℕ) → (x < 1) ⊎ (100 ≤ x) → covers x free ≡ 0)
available_sectors-covers_example =
    available_sectors-covers two_parts boot_part (data_part ∷ []) boot_extent (data_extent ∷ []) 100
      refl (refl, refl, (refl, refl, tt)) refl (omega arith) (omega arith)
