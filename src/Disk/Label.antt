-- ===== src/Disk/Label.antt =====
-- The filesystem labels of core/disk/partition.go, and the wait for a partition.
pub mod Emits
pub mod Secrets
pub mod Waiting
use albius.Base.{
  Bool, true, false, not, ◌||◌, [], ◌∷◌, Text, text, format, Option, none, some, ◌==◌, list_eq,
  nat_eq, if◌then◌else◌,
}
use albius.Machine.{
  Platform, Stat, present, absent, unreadable, message, wrap, Go, pure, fail, ◌>>=◌, handling,
  attempt, stat_path, poll_until,
}
use albius.Util.{run_command}
use albius.Luks.{mapper_path}
use albius.Disk.Types.{
  Partition, partition_at, btrfs, ext2, ext3, ext4, fat16, fat32, linux_swap, ntfs, reiserfs, xfs,
}
use albius.Disk.Partition.{get_uuid_by_path}

-- What `SetLabel` does for a filesystem: run a command, do nothing, or refuse.
pub data Labelling : Type 0 where
  command : Text → Labelling
  nothing : Labelling
  unsupported : Labelling

unfoldable pub labelling : Text → Text → Text → Labelling
labelling fs path label =
    if fs == fat16 || fs == fat32
    then command (format (text "fatlabel " ∷ path ∷ text " " ∷ label ∷ []))
    else if fs == ext2 || (fs == ext3 || fs == ext4)
    then command (format (text "e2label " ∷ path ∷ text " " ∷ label ∷ []))
    else if fs == btrfs
    then command (format (text "btrfs filesystem label " ∷ path ∷ text " " ∷ label ∷ []))
    else if fs == reiserfs
    then command (format (text "reiserfstune -l " ∷ label ∷ text " " ∷ path ∷ []))
    else if fs == xfs
    then command (format (text "xfs_admin -L " ∷ label ∷ text " " ∷ path ∷ []))
    else if fs == linux_swap
    then nothing
    else if fs == ntfs
    then command (format (text "ntfslabel " ∷ path ∷ text " " ∷ label ∷ []))
    else unsupported

module _ ⦃P : Platform⦄ where
  apply_labelling : Partition → Labelling → Go (Unit {0})
  apply_labelling part (command c) =
      handling (wrap (format (text "failed to label partition " ∷ part.path ∷ text ": " ∷ [])))
        (run_command c)
  apply_labelling part nothing = pure tt
  apply_labelling part unsupported =
      fail (message (format (text "unsupported filesystem: " ∷ part.filesystem ∷ [])))

  -- SetLabel
  unfoldable pub set_label : Partition → Text → Go (Unit {0})
  unfolding apply_labelling
  set_label part label = apply_labelling part (labelling part.filesystem part.path label)

  -- LUKSSetLabel
  unfoldable pub luks_set_label : Partition → Text → Go (Unit {0})
  luks_set_label part name = do
    uuid ← get_uuid_by_path part.path
    set_label (partition_at (mapper_path uuid) part.filesystem) name

  has_uuid : Option Text → Bool
  has_uuid none = false
  has_uuid (some uuid) = not (uuid == [])

  check_uuid : Partition → Go Bool
  unfolding has_uuid
  check_uuid part =
      if part.filesystem == []
      then pure true
      else do uuid ← attempt (get_uuid_by_path part.path); pure (has_uuid uuid)

  partition_ready_at : Partition → Stat → Go Bool
  unfolding check_uuid
  partition_ready_at part absent = pure false
  partition_ready_at part present = check_uuid part
  partition_ready_at part (unreadable why) = check_uuid part

  -- One round of the loop of WaitUntilAvailable
  unfoldable pub partition_ready : Partition → Go Bool
  unfolding partition_ready_at
  partition_ready part = do found ← stat_path part.path; partition_ready_at part found

  -- WaitUntilAvailable of a partition, an endless loop in the code
  unfoldable pub wait_for_partition : Partition → Go (Unit {0})
  wait_for_partition part = poll_until P.patience (partition_ready part)
