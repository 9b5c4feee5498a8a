-- ===== src/Disk/Partition.antt =====
-- core/disk/partition.go: the methods of a partition.
pub mod Paths
pub mod Emits
pub mod Secrets
use albius.Base.{
  ℕ, zero, suc, Bool, true, false, not, ◌||◌, ◌&&◌, leb, List, [], ◌∷◌, ◌++◌, Text, text, format,
  split, contains, get_last?, Option, none, some, ℤ, format_int, ◌==◌, list_eq, nat_eq, is_digit,
  if◌then◌else◌,
}
use albius.Machine.{
  Platform, Stat, present, absent, unreadable, Error, message, wrap, Go, pure, fail, diverge, ◌>>=◌,
  ◌>>◌, handling, attempt, stat_path,
}
use albius.Util.{run_command, output_of, separate_disk_part}
use albius.Luks.{mapper_path, luks_name, is_luks, luks_try_open, luks_close}
use albius.Disk.Types.{
  Partition, partition_at, btrfs, ext2, ext3, ext4, fat16, fat32, linux_swap, ntfs, reiserfs, xfs,
}

unfoldable pub mount_command : Text → Text → Text
mount_command source location = format (text "mount -m " ∷ source ∷ text " " ∷ location ∷ [])

unfoldable pub umount_command : Text → Text
umount_command target = format (text "umount " ∷ target ∷ [])

unfoldable pub uuid_command : Text → Text
uuid_command path = format (text "lsblk -d -n -o UUID " ∷ path ∷ [])

unfoldable pub fstype_command : Text → Text
fstype_command path = format (text "lsblk -d -n -o FSTYPE " ∷ path ∷ [])

unfoldable pub mountpoints_command : Text → Text
mountpoints_command path = format (text "lsblk -n -o MOUNTPOINTS " ∷ path ∷ [])

-- The parts of a text that are not empty.
unfoldable pub non_empty : List Text → List Text
non_empty [] = []
non_empty (s ∷ ss) = let rest = non_empty ss in if s == [] then rest else s ∷ rest

-- `parted` by the disk and the number that the path is split into.
unfoldable pub parted_command : Text → Text → Text → List Text → Text
parted_command path options verb operands =
    let (disk, part) = separate_disk_part path in
    format (text "parted -s " ∷ disk ∷ options ∷ verb ∷ part ∷ operands)

unfoldable pub remove_command : Text → Text
unfolding parted_command
remove_command path = parted_command path [] (text " rm ") []

unfoldable pub resize_command : Text → ℤ → Text
unfolding parted_command
resize_command path end =
    parted_command path (text " unit MiB") (text " resizepart ") (text " " ∷ format_int end ∷ [])

unfoldable pub name_command : Text → Text → Text
unfolding parted_command
name_command path name = parted_command path [] (text " name ") (text " " ∷ name ∷ [])

unfoldable pub set_flag_command : Text → Text → Bool → Text
unfolding parted_command
set_flag_command path flag state =
    parted_command path [] (text " set ")
      (text " " ∷ flag ∷ text " " ∷ (if state then text "on" else text "off") ∷ [])

ends_in_digit : Option ℕ → Option Bool
ends_in_digit none = none
ends_in_digit (some c) = some (is_digit c)

numbered_path : Text → ℤ → Option Bool → Option Text
numbered_path base n none = none
numbered_path base n (some true) = some (format (base ∷ text "p" ∷ format_int n ∷ []))
numbered_path base n (some false) = some (format (base ∷ format_int n ∷ []))

-- The path that FillPath gives; `none` where the base is empty and the code panics.
unfoldable pub filled_path : Text → ℤ → Option Text
unfolding ends_in_digit numbered_path
filled_path base n = numbered_path base n (ends_in_digit (get_last? base))

-- GetPath
unfoldable pub get_path : Partition → Text
get_path part = part.path

module _ ⦃P : Platform⦄ where
  -- GetUUIDByPath, and GetUUID of a partition with that path
  unfoldable pub get_uuid_by_path : Text → Go Text
  get_uuid_by_path path =
      handling (wrap (text "failed to get partition UUID: ")) (output_of (uuid_command path))

  -- GetFilesystemByPath
  unfoldable pub get_filesystem_by_path : Text → Go Text
  get_filesystem_by_path path =
      handling (wrap (text "failed to get partition FSTYPE: ")) (output_of (fstype_command path))

  mapper_path_if : Text → Bool → Go Text
  mapper_path_if path true = do uuid ← get_uuid_by_path path; pure (mapper_path uuid)
  mapper_path_if path false = fail (
      message (
        format (
          text "cannot get mapper path for "
          ∷ path
          ∷ text ". Partition is not LUKS-formatted"
          ∷ [])))

  -- GetLUKSMapperPath
  unfoldable pub get_luks_mapper_path : Text → Go Text
  unfolding mapper_path_if
  get_luks_mapper_path path = do luks ← is_luks path; mapper_path_if path luks

  -- Mountpoints
  unfoldable pub mountpoints : Text → Go (List Text)
  unfolding non_empty
  mountpoints path = do
    out ←
        handling (wrap (format (text "failed to list mountpoints for " ∷ path ∷ text ": " ∷ [])))
          (output_of (mountpoints_command path))
    pure (non_empty (split b'\n' out))

  -- IsMounted
  unfoldable pub is_mounted : Text → Go Bool
  is_mounted path = do points ← mountpoints path; pure (not (points == []))

  -- What is mounted: the mapper of an encrypted partition, opened first, or the partition.
  unfoldable pub mount_source : Text → Bool → Go Text
  mount_source path true = do
    uuid ← get_uuid_by_path path
    luks_try_open path (luks_name uuid) []
    get_luks_mapper_path path
  mount_source path false = pure path

  unfoldable pub mount_at : Text → Text → Bool → Go (Unit {0})
  mount_at source location true = pure tt
  mount_at source location false =
      handling (wrap (text "failed to run mount command: "))
        (run_command (mount_command source location))

  -- Mount
  unfoldable pub mount : Text → Text → Go (Unit {0})
  unfolding mount_source mount_at
  mount path location = do
    luks ← is_luks path
    source ← mount_source path luks
    points ← mountpoints path
    mount_at source location (contains points location)

  -- An encrypted partition is closed, and then its mapper is what is unmounted.
  unfoldable pub unmount_target : Text → Bool → Go Text
  unmount_target path true = do
    uuid ← get_uuid_by_path path
    luks_close (luks_name uuid)
    get_luks_mapper_path path
  unmount_target path false = pure path

  -- UnmountDirectory
  unfoldable pub unmount_directory : Text → Go (Unit {0})
  unmount_directory target =
      handling (wrap (text "failed to run umount command: ")) (run_command (umount_command target))

  unmount_if : Text → Bool → Go (Unit {0})
  unmount_if path false = pure tt
  unmount_if path true = do
    luks ← is_luks path
    target ← unmount_target path luks
    unmount_directory target

  -- UnmountPartition
  unfoldable pub unmount_partition : Text → Go (Unit {0})
  unfolding unmount_if unmount_target
  unmount_partition path = do mounted ← is_mounted path; unmount_if path mounted

  -- RemovePartition, ResizePartition, NamePartition and SetPartitionFlag
  unfoldable pub remove_partition : Partition → Go (Unit {0})
  remove_partition part =
      handling (wrap (text "failed to remove partition: ")) (run_command (remove_command part.path))

  unfoldable pub resize_partition : Partition → ℤ → Go (Unit {0})
  resize_partition part end =
      handling (wrap (text "failed to resize partition: "))
        (run_command (resize_command part.path end))

  unfoldable pub name_partition : Partition → Text → Go (Unit {0})
  name_partition part name =
      handling (wrap (text "failed to name partition: "))
        (run_command (name_command part.path name))

  unfoldable pub set_partition_flag : Partition → Text → Bool → Go (Unit {0})
  set_partition_flag part flag state =
      handling (wrap (text "failed to name partition: "))
        (run_command (set_flag_command part.path flag state))
