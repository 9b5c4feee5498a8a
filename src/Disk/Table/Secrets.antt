-- ===== src/Disk/Table/Secrets.antt =====
-- NewPartition, LabelDisk and the wait for a disk (core/disk/disk.go) where environments of
-- commands differ.
use albius.Base.{
  [], ◌∷◌, inl, inr, Option-cases, ℕ, zero, suc, Bool, true, false, Option, none, some, List, Text,
  ℤ,
}
use albius.Machine.{
  Platform, Stat, present, absent, unreadable, Error, throw, pure, index_out_of_range,
}
use albius.Machine.Secrets.{
  Alike, Alike-pure, Alike-throw, Alike-bind, Alike-handling, secret_rules,
}
use albius.Util.Secrets.{Alike-run_command, Alike-output_command, Alike-output_of}
use albius.Disk.Types.{Partition, Disk}
use albius.Disk.Partition.{name_partition, filled_path}
use albius.Disk.Filesystem.Secrets.{Alike-make_fs}
use albius.Disk.Label.Secrets.{Alike-set_label}
use albius.Disk.Partition.Secrets.{Alike-unmount_partition}
use albius.Lvm.Types.{Pv, Vg, pv_pointer, vg_pointer}
use albius.Lvm.Commands.Secrets.{Alike-vgs, Alike-vgremove, Alike-pvremove}
use albius.Disk.Table.{
  unmount_all, first_pv, remove_vgs, remove_pvs, label_disk, use_output, decoded, filled,
  locate_disk, update, counted, count_devices, new_partition_seen, wait_for_new_partition,
  last_partition, fill_partition, name_if, disk_ready_at, disk_ready, wait_rounds, wait_for_disk,
  new_partition,
}

module _ ⦃P : Platform⦄ where
  Alike-use_output :
      (name out : Text) (e : Option Error) → Alike (use_output name out e) (use_output name out e)
  unfolding use_output
  Alike-use_output name out none = search secret_rules
  Alike-use_output name out (some e) = search secret_rules

  Alike-decoded : (name : Text) (disk : Option Disk) → Alike (decoded name disk) (decoded name disk)
  unfolding decoded
  Alike-decoded name none = search secret_rules
  Alike-decoded name (some disk) = search secret_rules

  Alike-filled :
      (disk : Disk) (parts : Option (List Partition))
      → Alike (filled disk parts) (filled disk parts)
  unfolding filled
  Alike-filled disk none = search secret_rules
  Alike-filled disk (some parts) = search secret_rules

  pub Alike-locate_disk : (name : Text) → Alike (locate_disk name) (locate_disk name)
  unfolding locate_disk
  Alike-locate_disk name =
      search (secret_rules, Alike-output_command, Alike-use_output, Alike-decoded, Alike-filled)

  Alike-update : (disk : Disk) → Alike (update disk) (update disk)
  unfolding update
  Alike-update disk = search (secret_rules, Alike-locate_disk)

  Alike-counted : (out : Text) (n : Option ℤ) → Alike (counted out n) (counted out n)
  unfolding counted
  Alike-counted out none = search secret_rules
  Alike-counted out (some n) = search secret_rules

  Alike-count_devices : (path : Text) → Alike (count_devices path) (count_devices path)
  unfolding count_devices
  Alike-count_devices path = search (secret_rules, Alike-output_of, Alike-counted)

  Alike-new_partition_seen :
      (disk : Disk) → Alike (new_partition_seen disk) (new_partition_seen disk)
  unfolding new_partition_seen
  Alike-new_partition_seen disk = search (secret_rules, Alike-count_devices)

  Alike-wait_for_new_partition :
      (disk : Disk) → Alike (wait_for_new_partition disk) (wait_for_new_partition disk)
  unfolding wait_for_new_partition
  Alike-wait_for_new_partition disk =
      search (secret_rules, Alike-run_command, Alike-new_partition_seen)

  Alike-filled_at :
      (part : Partition) (path : Option Text)
      → Alike {A = Partition}
          (elim path [ none ↦ throw index_out_of_range | some p ↦ pure (record part { path = p }) ])
          (elim path [ none ↦ throw index_out_of_range | some p ↦ pure (record part { path = p }) ])
  Alike-filled_at part none = Alike-throw _
  Alike-filled_at part (some path) = Alike-pure _

  Alike-last_partition :
      (base : Text) (last : Option Partition)
      → Alike (last_partition base last) (last_partition base last)
  unfolding last_partition
  Alike-last_partition base none = search secret_rules
  Alike-last_partition base (some part) = Alike-filled_at part (filled_path base part.number)

  Alike-fill_partition :
      (part : Partition) (name fs : Text)
      → Alike (fill_partition part name fs) (fill_partition part name fs)
  unfolding fill_partition
  Alike-fill_partition part name fs = search (secret_rules, Alike-make_fs, Alike-set_label)

  Alike-name_if : (part : Partition) (name : Text) → Alike (name_if part name) (name_if part name)
  unfolding name_if name_partition
  Alike-name_if part name = search (secret_rules, Alike-run_command)

  pub Alike-new_partition :
      (disk : Disk) (name fs : Text) (start end : ℤ)
      → Alike (new_partition disk name fs start end) (new_partition disk name fs start end)
  unfolding new_partition
  Alike-new_partition disk name fs start end =
      search
        (
          secret_rules, Alike-run_command, Alike-wait_for_new_partition, Alike-update,
          Alike-last_partition, Alike-fill_partition, Alike-name_if,
        )
        depth 12

  Alike-disk_ready_at :
      (path : Text) (found : Stat) → Alike (disk_ready_at path found) (disk_ready_at path found)
  unfolding disk_ready_at
  Alike-disk_ready_at path absent = search secret_rules
  Alike-disk_ready_at path present = search (secret_rules, Alike-count_devices)
  Alike-disk_ready_at path (unreadable why) = search (secret_rules, Alike-count_devices)

  Alike-disk_ready : (path : Text) → Alike (disk_ready path) (disk_ready path)
  unfolding disk_ready
  Alike-disk_ready path = search (secret_rules, Alike-disk_ready_at)

  Alike-wait_rounds_from :
      (n : ℕ) (path : Text) (ready : Bool)
      → Alike (wait_rounds n path) (wait_rounds n path)
      → Alike
          (elim ready [ true ↦ pure tt | false ↦ wait_rounds n path ])
          (elim ready [ true ↦ pure tt | false ↦ wait_rounds n path ])
  Alike-wait_rounds_from n path true h = Alike-pure tt
  Alike-wait_rounds_from n path false h = h

  Alike-wait_rounds : (n : ℕ) (path : Text) → Alike (wait_rounds n path) (wait_rounds n path)
  unfolding wait_rounds
  Alike-wait_rounds zero path = search secret_rules
  Alike-wait_rounds (suc n) path =
      Alike-bind _ _ _ _ (Alike-disk_ready path)
        (λ ready. Alike-wait_rounds_from n path ready (Alike-wait_rounds n path))

  pub Alike-wait_for_disk : (path : Text) → Alike (wait_for_disk path) (wait_for_disk path)
  unfolding wait_for_disk
  Alike-wait_for_disk path = Alike-wait_rounds 600 path

  Alike-unmount_all : (parts : List Partition) → Alike (unmount_all parts) (unmount_all parts)
  unfolding unmount_all
  Alike-unmount_all [] = search secret_rules
  Alike-unmount_all (part ∷ parts) =
      Alike-bind _ _ _ _ (Alike-handling _ _ _ (Alike-unmount_partition part.path))
        (λ done. Alike-unmount_all parts)

  Alike-remove_vgs :
      (path : Text) (groups : List Vg) → Alike (remove_vgs path groups) (remove_vgs path groups)
  unfolding remove_vgs
  Alike-remove_vgs path [] = search secret_rules
  Alike-remove_vgs path (vg ∷ groups) = elim (Option-cases (first_pv path vg.pvs)) [
    | inl e ↦ rw (remove_vgs, e) (Alike-remove_vgs path groups)
    | inr (pv, e) ↦
        rw (remove_vgs, e)
          (Alike-bind _ _ _ _ (Alike-handling _ _ _ (Alike-vgremove (vg_pointer vg))) (λ done.
            Alike-bind _ _ _ _ (Alike-remove_vgs path groups) (λ pvs. Alike-pure (pv ∷ pvs))))
  ]

  Alike-remove_pvs : (pvs : List Pv) → Alike (remove_pvs pvs) (remove_pvs pvs)
  unfolding remove_pvs
  Alike-remove_pvs [] = search secret_rules
  Alike-remove_pvs (pv ∷ pvs) =
      Alike-bind _ _ _ _ (Alike-handling _ _ _ (Alike-pvremove (pv_pointer pv)))
        (λ done. Alike-remove_pvs pvs)

  pub Alike-label_disk :
      (disk : Disk) (label : Text) → Alike (label_disk disk label) (label_disk disk label)
  unfolding label_disk
  Alike-label_disk disk label =
      search
        (
          secret_rules, Alike-unmount_all, Alike-vgs, Alike-remove_vgs, Alike-remove_pvs,
          Alike-run_command,
        )
        depth 12
