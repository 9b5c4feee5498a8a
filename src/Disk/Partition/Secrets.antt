-- ===== src/Disk/Partition/Secrets.antt =====
-- The methods of a partition (core/disk/partition.go) where environments of commands differ.
use albius.Base.{Bool, true, false, Text, ℤ}
use albius.Machine.{Platform}
use albius.Machine.Secrets.{Alike, secret_rules}
use albius.Util.Secrets.{Alike-run_command, Alike-output_of}
use albius.Luks.Secrets.{Alike-is_luks, Alike-luks_close}
use albius.Disk.Types.{Partition}
use albius.Disk.Filesystem.Secrets.{Alike-get_uuid_by_path}
use albius.Disk.Partition.{
  mapper_path_if, get_luks_mapper_path, mountpoints, is_mounted, unmount_target, unmount_directory,
  unmount_if, unmount_partition, remove_partition, resize_partition, name_partition,
  set_partition_flag,
}

module _ ⦃P : Platform⦄ where
  Alike-mapper_path_if :
      (path : Text) (luks : Bool) → Alike (mapper_path_if path luks) (mapper_path_if path luks)
  unfolding mapper_path_if
  Alike-mapper_path_if path true = search (secret_rules, Alike-get_uuid_by_path)
  Alike-mapper_path_if path false = search secret_rules

  Alike-get_luks_mapper_path :
      (path : Text) → Alike (get_luks_mapper_path path) (get_luks_mapper_path path)
  unfolding get_luks_mapper_path
  Alike-get_luks_mapper_path path = search (secret_rules, Alike-is_luks, Alike-mapper_path_if)

  Alike-is_mounted : (path : Text) → Alike (is_mounted path) (is_mounted path)
  unfolding is_mounted mountpoints
  Alike-is_mounted path = search (secret_rules, Alike-output_of)

  Alike-unmount_target :
      (path : Text) (luks : Bool) → Alike (unmount_target path luks) (unmount_target path luks)
  unfolding unmount_target
  Alike-unmount_target path true =
      search (secret_rules, Alike-get_uuid_by_path, Alike-luks_close, Alike-get_luks_mapper_path)
  Alike-unmount_target path false = search secret_rules

  Alike-unmount_if :
      (path : Text) (mounted : Bool) → Alike (unmount_if path mounted) (unmount_if path mounted)
  unfolding unmount_if unmount_directory
  Alike-unmount_if path true =
      search (secret_rules, Alike-is_luks, Alike-unmount_target, Alike-run_command)
  Alike-unmount_if path false = search secret_rules

  pub Alike-unmount_partition :
      (path : Text) → Alike (unmount_partition path) (unmount_partition path)
  unfolding unmount_partition
  Alike-unmount_partition path = search (secret_rules, Alike-is_mounted, Alike-unmount_if)

  pub Alike-remove_partition :
      (part : Partition) → Alike (remove_partition part) (remove_partition part)
  unfolding remove_partition
  Alike-remove_partition part = search (secret_rules, Alike-run_command)

  pub Alike-resize_partition :
      (part : Partition) (end : ℤ) → Alike (resize_partition part end) (resize_partition part end)
  unfolding resize_partition
  Alike-resize_partition part end = search (secret_rules, Alike-run_command)

  pub Alike-name_partition :
      (part : Partition) (name : Text) → Alike (name_partition part name) (name_partition part name)
  unfolding name_partition
  Alike-name_partition part name = search (secret_rules, Alike-run_command)

  pub Alike-set_partition_flag :
      (part : Partition) (flag : Text) (state : Bool)
      → Alike (set_partition_flag part flag state) (set_partition_flag part flag state)
  unfolding set_partition_flag
  Alike-set_partition_flag part flag state = search (secret_rules, Alike-run_command)
