-- ===== src/Tests/Tables.antt =====
-- Partition tables, and the processes of UpdateInitramfs
use albius.Base.{
  ◌≡◌, refl, some, List, [], ◌∷◌, Text, text, pos, ℤ, format, format_int, format_nat, digits,
  trim_space, list_beq, atoi,
}
use albius.Machine.{Platform, ok, World, run_process, perform, ◌>>=◌, pure, handling, poll_until}
use albius.Machine.Runs.{Runs}
use albius.Disk.Types.{Partition, Disk, partition_at, ext4}
use albius.Util.{output_command, output_of, run_command}
use albius.Disk.Partition.{filled_path, name_partition}
use albius.Disk.Label.{set_label, labelling}
use albius.Disk.Filesystem.{make_fs, makefs_command}
use albius.Disk.Table.{
  fill_paths, locate_disk, new_partition, sort_by_number, insert_by_number, update,
  wait_for_new_partition, new_partition_seen, count_devices, fill_partition, with_last,
}
use albius.Disk.Table.New.{IsHighest, new_partition-IsHighest}
use albius.Disk.Table.Formats.{NewEvent}
use albius.Machine.Logged.{Logged}
use albius.Tests.Scripted.{agreeable}

abbrev numbered : ℤ → Text → Partition
numbered n path = record (partition_at path []) { number = n }

-- A report that lists its partitions out of order
abbrev reported : Disk
reported = record {
  path = text "/dev/sda";
  size = text "100MiB";
  model = [];
  transport = [];
  label = text "gpt";
  logical_sector_size = pos 512;
  physical_sector_size = pos 512;
  max_partitions = pos 128;
  partitions = numbered (pos 2) [] ∷ numbered (pos 1) [] ∷ [];
}

abbrev filled_parts : List Partition
filled_parts = numbered (pos 2) (text "/dev/sda2") ∷ numbered (pos 1) (text "/dev/sda1") ∷ []

abbrev located : Disk
located = record reported {
  partitions = numbered (pos 1) (text "/dev/sda1") ∷ numbered (pos 2) (text "/dev/sda2") ∷ [];
}

abbrev answering : Platform
answering = agreeable (some reported)

abbrev start : World ⦃P = answering⦄
start = record { state = tt; log = [] }

abbrev made : Partition
made = record (numbered (pos 2) (text "/dev/sda2")) { filesystem = ext4 }

abbrev formatted : Disk
formatted = record located { partitions = numbered (pos 1) (text "/dev/sda1") ∷ made ∷ [] }

made_second :
    (new_partition ⦃P = answering⦄ reported (text "data") ext4 (pos 1) (pos 50) start).0
    ≡ ok (formatted, made)
unfolding new_partition locate_disk output_command run_process perform ◌>>=◌ pure fill_paths
    sort_by_number insert_by_number filled_path format text format_int format_nat digits trim_space
    list_beq handling run_command update wait_for_new_partition poll_until new_partition_seen
    count_devices fill_partition make_fs makefs_command set_label labelling name_partition output_of
    atoi with_last
made_second = refl

new_partition-IsHighest_example :
    IsHighest formatted made
    × Logged ⦃P = answering⦄
        (NewEvent reported (text "/dev/sda2"))
        start
        (new_partition ⦃P = answering⦄ reported (text "data") ext4 (pos 1) (pos 50) start).1
new_partition-IsHighest_example =
    new_partition-IsHighest ⦃P = answering⦄ reported (text "data") ext4 (pos 1) (pos 50) start
      {disk = formatted} {part = made} made_second
