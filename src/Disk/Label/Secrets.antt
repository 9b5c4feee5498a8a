-- ===== src/Disk/Label/Secrets.antt =====
-- SetLabel, LUKSSetLabel and WaitUntilAvailable (core/disk/partition.go) where environments of
-- commands differ.
use albius.Base.{Text}
use albius.Machine.{Platform, Stat, present, absent, unreadable}
use albius.Machine.Secrets.{Alike, secret_rules}
use albius.Util.Secrets.{Alike-run_command}
use albius.Disk.Types.{Partition}
use albius.Disk.Filesystem.Secrets.{Alike-get_uuid_by_path}
use albius.Disk.Label.{
  Labelling, command, nothing, unsupported, apply_labelling, set_label, luks_set_label, check_uuid,
  partition_ready_at, partition_ready, wait_for_partition,
}

module _ ⦃P : Platform⦄ where
  Alike-apply_labelling :
      (part : Partition) (how : Labelling)
      → Alike (apply_labelling part how) (apply_labelling part how)
  unfolding apply_labelling
  Alike-apply_labelling part (command c) = search (secret_rules, Alike-run_command)
  Alike-apply_labelling part nothing = search secret_rules
  Alike-apply_labelling part unsupported = search secret_rules

  pub Alike-set_label :
      (part : Partition) (label : Text) → Alike (set_label part label) (set_label part label)
  unfolding set_label
  Alike-set_label part label = Alike-apply_labelling part _

  pub Alike-luks_set_label :
      (part : Partition) (name : Text) → Alike (luks_set_label part name) (luks_set_label part name)
  unfolding luks_set_label
  Alike-luks_set_label part name = search (secret_rules, Alike-get_uuid_by_path, Alike-set_label)

  Alike-check_uuid : (part : Partition) → Alike (check_uuid part) (check_uuid part)
  unfolding check_uuid
  Alike-check_uuid part = search (secret_rules, Alike-get_uuid_by_path)

  Alike-partition_ready_at :
      (part : Partition) (found : Stat)
      → Alike (partition_ready_at part found) (partition_ready_at part found)
  unfolding partition_ready_at
  Alike-partition_ready_at part absent = search secret_rules
  Alike-partition_ready_at part present = Alike-check_uuid part
  Alike-partition_ready_at part (unreadable why) = Alike-check_uuid part

  Alike-partition_ready : (part : Partition) → Alike (partition_ready part) (partition_ready part)
  unfolding partition_ready
  Alike-partition_ready part = search (secret_rules, Alike-partition_ready_at)

  pub Alike-wait_for_partition :
      (part : Partition) → Alike (wait_for_partition part) (wait_for_partition part)
  unfolding wait_for_partition
  Alike-wait_for_partition part = search (secret_rules, Alike-partition_ready)
