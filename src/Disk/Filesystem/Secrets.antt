-- ===== src/Disk/Filesystem/Secrets.antt =====
-- MakeFs and LUKSMakeFs (core/disk/filesystem.go) where environments of commands differ.
use albius.Base.{Option, none, some, Text}
use albius.Machine.{Platform}
use albius.Machine.Secrets.{Alike, secret_rules}
use albius.Util.Secrets.{Alike-run_command, Alike-output_of}
use albius.Disk.Types.{Partition}
use albius.Disk.Partition.{get_uuid_by_path}
use albius.Disk.Filesystem.{run_makefs, make_fs, luks_make_fs}

module _ ⦃P : Platform⦄ where
  pub Alike-get_uuid_by_path : (path : Text) → Alike (get_uuid_by_path path) (get_uuid_by_path path)
  unfolding get_uuid_by_path
  Alike-get_uuid_by_path path = search (secret_rules, Alike-output_of)

  Alike-run_makefs :
      (part : Partition) (command : Option Text)
      → Alike (run_makefs part command) (run_makefs part command)
  unfolding run_makefs
  Alike-run_makefs part none = search secret_rules
  Alike-run_makefs part (some c) = search (secret_rules, Alike-run_command)

  pub Alike-make_fs : (part : Partition) → Alike (make_fs part) (make_fs part)
  unfolding make_fs
  Alike-make_fs part = Alike-run_makefs part _

  pub Alike-luks_make_fs : (part : Partition) → Alike (luks_make_fs part) (luks_make_fs part)
  unfolding luks_make_fs
  Alike-luks_make_fs part = search (secret_rules, Alike-get_uuid_by_path, Alike-make_fs)
