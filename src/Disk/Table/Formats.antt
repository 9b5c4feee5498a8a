-- ===== src/Disk/Table/Formats.antt =====
-- What NewPartition of core/disk/disk.go does to the machine, by the path of the new partition.
use albius.Base.{
  Option, none, some, ◌≡◌, ◌==◌, list_eq, nat_eq, [], ◌∷◌, ◌++◌, append-nil, Text, text, format, ℤ,
}
use albius.Machine.{Platform, Event, ran, shell, throw, pure, index_out_of_range}
use albius.Machine.Emits.{
  Emits, Emits-bind, Emits-if, Emits-handling, Emits-throw, Emits-pure, emit_rules,
}
use albius.Machine.Words.{WorksOn}
use albius.Machine.Polling.{poll_until-Emits}
use albius.Util.{separate_disk_part, run_command}
use albius.Util.Emits.{Emits-run_command, util_rules}
use albius.Disk.Types.{Partition, Disk}
use albius.Disk.Partition.{filled_path, name_command, name_partition}
use albius.Disk.Label.Emits.{set_label-Emits}
use albius.Disk.Filesystem.Emits.{make_fs-Emits}
use albius.Disk.Table.{
  print_command, count_command, mkpart_command, counted, count_devices, new_partition_seen,
  wait_for_new_partition, update, last_partition, fill_partition, name_if,
}
use albius.Disk.Table.Emits.{locate_disk-Emits}

-- The events of NewPartition: those that make a partition on the disk, look at the disk, and work
-- on the partition at the path, or name it by the disk and the number that the path is split into.
pub data NewEvent (target : Disk) (path : Text) : Event → Type 0 where
  creates :
      (what : Text)
      → NewEvent target path
          (ran (shell [] (text "parted -s " ++ (target.path ++ (text " unit MiB mkpart" ++ what)))))
  probes : NewEvent target path (ran (shell [] (text "partprobe " ++ target.path)))
  counts : NewEvent target path (ran (shell [] (count_command target.path)))
  prints : NewEvent target path (ran (shell [] (print_command target.path)))
  works_on : (command : Text) → WorksOn path command → NewEvent target path (ran (shell [] command))
  names :
      (name : Text)
      → NewEvent target path (
          ran (
            shell [] (
              text "parted -s "
              ++ ((separate_disk_part path).0
                  ++ (text " name " ++ ((separate_disk_part path).1 ++ (b' ' ∷ name)))))))

module _ ⦃P : Platform⦄ (target : Disk) (path : Text) where
  creates_partition :
      (name fs : Text) (start end : ℤ)
      → NewEvent target path (ran (shell [] (mkpart_command target name fs start end)))
  unfolding mkpart_command format text
  creates_partition name fs start end = creates _

  probes_disk :
      NewEvent target path (ran (shell [] (format (text "partprobe " ∷ target.path ∷ []))))
  unfolding format text
  probes_disk = rw append-nil probes

  counted-Emits : (out : Text) (n : Option ℤ) → Emits (NewEvent target path) (counted out n)
  unfolding counted
  counted-Emits out none = search emit_rules
  counted-Emits out (some n) = search emit_rules

  new_partition_seen-Emits : Emits (NewEvent target path) (new_partition_seen target)
  unfolding new_partition_seen count_devices
  new_partition_seen-Emits = search (emit_rules, util_rules, counts, counted-Emits)

  pub wait_for_new_partition-Emits : Emits (NewEvent target path) (wait_for_new_partition target)
  unfolding wait_for_new_partition
  wait_for_new_partition-Emits =
      Emits-bind _ _ (Emits-run_command _ probes_disk)
        (λ probed. poll_until-Emits _ _ new_partition_seen-Emits)

  pub update-Emits : Emits (NewEvent target path) (update target)
  unfolding update
  update-Emits = search (emit_rules, locate_disk-Emits, prints)

  pub mkpart-Emits :
      (name fs : Text) (start end : ℤ)
      → Emits (NewEvent target path) (run_command (mkpart_command target name fs start end))
  mkpart-Emits name fs start end = Emits-run_command _ (creates_partition name fs start end)

  filled_at-Emits :
      (part : Partition) (found : Option Text)
      → Emits {A = Partition} (NewEvent target path) (elim found [
        | none ↦ throw index_out_of_range
        | some p ↦ pure (record part { path = p })
      ])
  filled_at-Emits part none = Emits-throw _
  filled_at-Emits part (some p) = Emits-pure _

  pub last_partition-Emits :
      (base : Text) (last : Option Partition)
      → Emits (NewEvent target path) (last_partition base last)
  unfolding last_partition
  last_partition-Emits base none = search emit_rules
  last_partition-Emits base (some part) = filled_at-Emits part (filled_path base part.number)

  pub fill_partition-Emits :
      (part : Partition) (name fs : Text)
      → part.path ≡ path
      → Emits (NewEvent target path) (fill_partition part name fs)
  unfolding fill_partition
  fill_partition-Emits part name fs e = Emits-if (fs == []) _ _ (Emits-pure part) (
      Emits-bind _ _ (make_fs-Emits _ (λ c h. works_on c (rw (← e) h))) (λ made.
        Emits-bind _ _ (set_label-Emits _ name (λ c h. works_on c (rw (← e) h)))
          (λ labelled. Emits-pure _)))

  names_partition : (name : Text) → NewEvent target path (ran (shell [] (name_command path name)))
  unfolding name_command format text
  names_partition name = rw append-nil (names name)

  pub name_if-Emits :
      (part : Partition) (name : Text)
      → part.path ≡ path
      → Emits (NewEvent target path) (name_if part name)
  unfolding name_if name_partition
  name_if-Emits part name e =
      Emits-if (name == []) _ _ (Emits-pure tt)
        (Emits-handling _ _ (Emits-run_command _ (rw e (names_partition name))))
