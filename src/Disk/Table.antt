-- ===== src/Disk/Table.antt =====
-- core/disk/disk.go: the partition table of a disk.
pub mod Emits
pub mod Labelled
pub mod Order
pub mod New
pub mod Formats
pub mod Prefixes
pub mod Secrets
pub mod Waiting
use albius.Base.{
  ℕ, zero, suc, Bool, true, false, not, Option, none, some, List, [], ◌∷◌, Text, text, format,
  length, get_last?, trim_space, contains_text, ℤ, pos, minus_one, int_ltb, format_int, atoi, ◌==◌,
  list_eq, nat_eq, int_eq, if◌then◌else◌,
}
use albius.Machine.{
  Platform, Stat, present, absent, unreadable, Error, message, not_number, wrap, index_out_of_range,
  Go, pure, fail, throw, ◌>>=◌, ◌>>◌, handling, stat_path, poll_until,
}
use albius.Util.{Output, run_command, output_command, output_of}
use albius.Lvm.Types.{Pv, Vg, pv_pointer, vg_pointer}
use albius.Lvm.Commands.{vgs, vgremove, pvremove}
use albius.Disk.Types.{Partition, Disk, msdos}
use albius.Disk.Partition.{filled_path, unmount_partition, name_partition}
use albius.Disk.Label.{set_label}
use albius.Disk.Filesystem.{make_fs}

-- GetPartition: the first partition with the number
unfoldable pub get_partition : ℤ → List Partition → Option Partition
get_partition n [] = none
get_partition n (part ∷ parts) = if part.number == n then some part else get_partition n parts

-- FillPath of every partition; `none` where it panics
unfoldable pub fill_paths : Text → List Partition → Option (List Partition)
fill_paths base [] = some []
fill_paths base (part ∷ parts) = elim (filled_path base part.number) [
  | none ↦ none
  | some path ↦ elim (fill_paths base parts) [
    | none ↦ none
    | some rest ↦ some (record part { path = path } ∷ rest)
  ]
]

-- slices.SortFunc by number; the numbers of a table differ, so that stability does not matter.
unfoldable pub insert_by_number : Partition → List Partition → List Partition
insert_by_number part [] = part ∷ []
insert_by_number part (next ∷ parts) =
    let rest = insert_by_number part parts in
    if int_ltb next.number part.number then next ∷ rest else part ∷ next ∷ parts

unfoldable pub sort_by_number : List Partition → List Partition
unfolding insert_by_number
sort_by_number [] = []
sort_by_number (part ∷ parts) = insert_by_number part (sort_by_number parts)

-- The list with another last partition, as after writing through a pointer to the last one
unfoldable pub with_last : List Partition → Partition → List Partition
with_last [] part = []
with_last (last ∷ []) part = part ∷ []
with_last (other ∷ next ∷ parts) part = other ∷ with_last (next ∷ parts) part

unfoldable pub mklabel_command : Text → Text → Text
mklabel_command path label = format (text "parted -s " ∷ path ∷ text " mklabel " ∷ label ∷ [])

unfoldable pub mkpart_command : Disk → Text → Text → ℤ → ℤ → Text
mkpart_command disk name fs start end = format (
    text "parted -s "
    ∷ disk.path
    ∷ text " unit MiB mkpart"
    ∷ (if disk.label == msdos then text " primary" else [])
    ∷ (if name == [] then [] else format (text " \"" ∷ name ∷ text "\"" ∷ []))
    ∷ text " "
    ∷ fs
    ∷ text " "
    ∷ format_int start
    ∷ text " "
    ∷ (if end == minus_one then text "100%" else format_int end)
    ∷ [])

unfoldable pub print_command : Text → Text
print_command name = format (text "parted -sj " ∷ name ∷ text " unit MiB print" ∷ [])

unfoldable pub count_command : Text → Text
count_command path = format (text "lsblk -nro NAME " ∷ path ∷ text " | wc -l" ∷ [])

module _ ⦃P : Platform⦄ where
  use_output : Text → Text → Option Error → Go Text
  use_output name out none = pure out
  use_output name out (some e) =
      if out == [] then fail (wrap (text "failed to list disk: ") e) else pure out

  decoded : Text → Option Disk → Go Disk
  decoded name none = fail (message (format (text "could not find device " ∷ name ∷ [])))
  decoded name (some disk) = pure disk

  filled : Disk → Option (List Partition) → Go Disk
  filled disk none = throw index_out_of_range
  filled disk (some parts) = pure (record disk { partitions = sort_by_number parts })

  -- LocateDisk: an error beside an output that is not empty is dropped.
  unfoldable pub locate_disk : Text → Go Disk
  unfolding use_output decoded filled
  locate_disk name = do
    o ← output_command (print_command name)
    out ← use_output name o.out o.error
    disk ← decoded name (P.decode_disk out)
    filled disk (fill_paths disk.path disk.partitions)

  -- Update, which leaves the model as it was
  unfoldable pub update : Disk → Go Disk
  update disk = do updated ← locate_disk disk.path; pure (record updated { model = disk.model })

  counted : Text → Option ℤ → Go ℤ
  counted out none = fail (not_number out)
  counted out (some n) = pure n

  -- The number of lines that lsblk prints for a disk
  unfoldable pub count_devices : Text → Go ℤ
  unfolding counted
  count_devices path = do out ← output_of (count_command path); counted out (atoi (trim_space out))

  -- One round of waitForNewPartition: count - 1 != len(disk.Partitions)
  unfoldable pub new_partition_seen : Disk → Go Bool
  new_partition_seen disk = do
    count ← count_devices disk.path
    pure (not (count == pos (suc (length disk.partitions))))

  -- waitForNewPartition, an endless loop in the code
  unfoldable pub wait_for_new_partition : Disk → Go (Unit {0})
  wait_for_new_partition disk = do
    run_command (format (text "partprobe " ∷ disk.path ∷ []))
    poll_until P.patience (new_partition_seen disk)

  unfoldable pub unmount_all : List Partition → Go (Unit {0})
  unmount_all [] = pure tt
  unmount_all (part ∷ parts) = do
    handling (wrap (format (text "failed to unmount partition " ∷ part.path ∷ text ": " ∷ [])))
        (unmount_partition part.path)
    unmount_all parts

  -- The first PV of a VG whose path contains the path of the disk
  unfoldable pub first_pv : Text → List Pv → Option Pv
  first_pv path [] = none
  first_pv path (pv ∷ pvs) = if contains_text pv.path path then some pv else first_pv path pvs

  -- The VGs with a PV on the disk are removed, and one PV of each is kept for later.
  unfoldable pub remove_vgs : Text → List Vg → Go (List Pv)
  remove_vgs path [] = pure []
  remove_vgs path (vg ∷ vgs) =
      let rest = remove_vgs path vgs in
      elim (first_pv path vg.pvs) [
        | none ↦ rest
        | some pv ↦ do
          handling (wrap (format (text "failed to remove vg " ∷ vg.name ∷ text ": " ∷ [])))
              (vgremove (vg_pointer vg))
          pvs ← rest
          pure (pv ∷ pvs)
      ]

  unfoldable pub remove_pvs : List Pv → Go (Unit {0})
  remove_pvs [] = pure tt
  remove_pvs (pv ∷ pvs) = do
    handling (wrap (format (text "failed to remove pv " ∷ pv.path ∷ text ": " ∷ [])))
        (pvremove (pv_pointer pv))
    remove_pvs pvs

  -- LabelDisk
  unfoldable pub label_disk : Disk → Text → Go (Unit {0})
  label_disk disk label = do
    unmount_all disk.partitions
    groups ← handling (wrap (text "failed to list vgs: ")) (vgs [])
    pvs ← remove_vgs disk.path groups
    remove_pvs pvs
    handling (wrap (text "failed to label disk: ")) (run_command (mklabel_command disk.path label))

  pub last_partition : Text → Option Partition → Go Partition
  last_partition base none = throw index_out_of_range
  last_partition base (some part) = elim (filled_path base part.number) [
    | none ↦ throw index_out_of_range
    | some path ↦ pure (record part { path = path })
  ]

  -- The filesystem of a new partition, and its label; none for an empty type
  unfoldable pub fill_partition : Partition → Text → Text → Go Partition
  fill_partition part name fs = if fs == [] then pure part else do
    let formatted = record part { filesystem = fs }
    make_fs formatted
    set_label formatted name
    pure formatted

  pub name_if : Partition → Text → Go (Unit {0})
  name_if part name = if name == [] then pure tt else name_partition part name

  -- NewPartition. The partition that the code goes on with is the last one of the updated table, in
  -- which it stays; its filesystem is written through a pointer.
  unfoldable pub new_partition : Disk → Text → Text → ℤ → ℤ → Go (Disk × Partition)
  unfolding last_partition name_if
  new_partition target name fs start end = do
    handling (wrap (text "failed to create partition: "))
        (run_command (mkpart_command target name fs start end))
    handling (wrap (text "failed to create partition: ")) (wait_for_new_partition target)
    disk ← handling (wrap (text "failed to create partition: ")) (update target)
    part ← last_partition disk.path (get_last? disk.partitions)
    done ← fill_partition part name fs
    name_if done name
    pure (record disk { partitions = with_last disk.partitions done }, done)

  disk_ready_at : Text → Stat → Go Bool
  disk_ready_at path absent = pure false
  disk_ready_at path present = do count ← count_devices path; pure (not (count == pos 0))
  disk_ready_at path (unreadable why) = do count ← count_devices path; pure (not (count == pos 0))

  -- One round of the loop of WaitUntilAvailable
  unfoldable pub disk_ready : Text → Go Bool
  unfolding disk_ready_at
  disk_ready path = do found ← stat_path path; disk_ready_at path found

  unfoldable pub wait_rounds : ℕ → Text → Go (Unit {0})
  wait_rounds zero path = fail (message (format (text "timeout waiting for disk " ∷ path ∷ [])))
  wait_rounds (suc n) path = do
    ready ← disk_ready path
    elim ready [ true ↦ pure tt | false ↦ wait_rounds n path ]

  -- WaitUntilAvailable of a disk: 600 rounds
  unfoldable pub wait_for_disk : Text → Go (Unit {0})
  wait_for_disk path = wait_rounds 600 path
