-- ===== src/Disk/Table/Emits.antt =====
-- The events of `LocateDisk` (core/disk/disk.go).
use albius.Base.{Option, none, some, List, [], Text}
use albius.Machine.{Platform, Event, ran, shell, Error}
use albius.Machine.Emits.{Emits, emit_rules}
use albius.Util.Emits.{util_rules}
use albius.Disk.Types.{Partition, Disk}
use albius.Disk.Table.{print_command, use_output, decoded, filled, locate_disk}

module _ ⦃P : Platform⦄ {E : Event → Type 0} where
  use_output-Emits : (name out : Text) (e : Option Error) → Emits E (use_output name out e)
  unfolding use_output
  use_output-Emits name out none = search emit_rules
  use_output-Emits name out (some e) = search emit_rules

  decoded-Emits : (name : Text) (disk : Option Disk) → Emits E (decoded name disk)
  unfolding decoded
  decoded-Emits name none = search emit_rules
  decoded-Emits name (some disk) = search emit_rules

  filled-Emits : (disk : Disk) (parts : Option (List Partition)) → Emits E (filled disk parts)
  unfolding filled
  filled-Emits disk none = search emit_rules
  filled-Emits disk (some parts) = search emit_rules

  pub locate_disk-Emits :
      (name : Text) → E (ran (shell [] (print_command name))) → Emits E (locate_disk name)
  unfolding locate_disk
  locate_disk-Emits name h =
      search (emit_rules, util_rules, use_output-Emits, decoded-Emits, filled-Emits)
