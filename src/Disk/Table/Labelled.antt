-- ===== src/Disk/Table/Labelled.antt =====
-- What LabelDisk of core/disk/disk.go does to the machine.
use albius.Base.{
  ◌≡◌, refl, sym, inl, inr, true, Bool-cases, some, List, [], ◌∷◌, Text, text, format, join, All,
  Among, contains_text, Option-cases,
}
use albius.Machine.{Platform, World, ok, Event, ran, shell, pure}
use albius.Machine.Returns.{ok-injective, bind-returns, handling-returns}
use albius.Machine.Emits.{
  Emits, Gave, Emits-bind, Emits-bind_gave, Emits-handling, Emits-pure, emit_rules,
}
use albius.Util.Emits.{Emits-run_command}
use albius.Luks.{luks_name, mapper_path, is_luks_command, luks_close_command}
use albius.Disk.Types.{Partition, Disk}
use albius.Disk.Partition.{mountpoints_command, uuid_command, umount_command}
use albius.Disk.Partition.Emits.{unmount_partition-Emits}
use albius.Lvm.Types.{Pv, Vg}
use albius.Lvm.Commands.{vgs}
use albius.Lvm.Commands.Emits.{
  pvs_command, lvs_command, vgs_command, vgs-Emits, vgremove-Emits, pvremove-Emits,
}
use albius.Disk.Table.{first_pv, mklabel_command, unmount_all, remove_vgs, remove_pvs, label_disk}

module _ ⦃P : Platform⦄ where
  -- LVM listed the VG in some world, and the PV in it, whose path contains that of the disk.
  pub record IsOn (disk : Text) (vg : Vg) (pv : Pv) : Type 0 where
    pub groups : List Vg
    pub listed : Gave (vgs []) groups
    pub group : Among vg groups
    pub member : Among pv vg.pvs
    pub contained : contains_text pv.path disk ≡ true

  -- The events of LabelDisk: the unmounting of the disk's own partitions, the lists of LVM, the
  -- removal of VGs and PVs on the disk, and the new label.
  pub data LabelEvent (disk : Disk) (label : Text) : Event → Type 0 where
    lists_mounts :
        (part : Partition)
        → Among part disk.partitions
        → LabelEvent disk label (ran (shell [] (mountpoints_command part.path)))
    checks_luks :
        (part : Partition)
        → Among part disk.partitions
        → LabelEvent disk label (ran (shell [] (is_luks_command part.path)))
    reads_uuid :
        (part : Partition)
        → Among part disk.partitions
        → LabelEvent disk label (ran (shell [] (uuid_command part.path)))
    unmounts :
        (part : Partition)
        → Among part disk.partitions
        → LabelEvent disk label (ran (shell [] (umount_command part.path)))
    unmounts_mapper :
        (uuid : Text) → LabelEvent disk label (ran (shell [] (umount_command (mapper_path uuid))))
    closes :
        (uuid : Text) → LabelEvent disk label (ran (shell [] (luks_close_command (luks_name uuid))))
    lists_pvs : LabelEvent disk label (ran (shell [] (pvs_command [])))
    lists_lvs : LabelEvent disk label (ran (shell [] (lvs_command [])))
    lists_vgs : LabelEvent disk label (ran (shell [] (vgs_command [])))
    removes_vg :
        (vg : Vg) (pv : Pv)
        → IsOn disk.path vg pv
        → LabelEvent disk label (ran (shell [] (format (text "vgremove -y " ∷ vg.name ∷ []))))
    removes_pv :
        (vg : Vg) (pv : Pv)
        → IsOn disk.path vg pv
        → LabelEvent disk label (ran (shell [] (format (text "pvremove -y " ∷ pv.path ∷ []))))
    scans_pv :
        (vg : Vg) (pv : Pv)
        → IsOn disk.path vg pv
        → LabelEvent disk label (ran (shell [] (format (text "pvscan --cache " ∷ pv.path ∷ []))))
    labels : LabelEvent disk label (ran (shell [] (mklabel_command disk.path label)))

  -- The first PV of a list is one of it, and its path contains that of the disk.
  first_pv-Among :
      (disk : Text) (pvs : List Pv) (pv : Pv)
      → first_pv disk pvs ≡ some pv
      → Among pv pvs × (contains_text pv.path disk ≡ true)
  unfolding first_pv
  first_pv-Among disk [] pv h = cc h
  first_pv-Among disk (other ∷ pvs) pv h = elim (Bool-cases (contains_text other.path disk)) [
    | inl e ↦ let same : other ≡ pv = cc (rw (first_pv, e) at h) in (inl (sym same), rw (← same) e)
    | inr e ↦
        let (among, contained) = first_pv-Among disk pvs pv (rw (first_pv, e) at h) in
        (inr among, contained)
  ]

  module _ (disk : Disk) (label : Text) where
    unmount_all-Emits :
        (parts : List Partition)
        → ((part : Partition) → Among part parts → Among part disk.partitions)
        → Emits (LabelEvent disk label) (unmount_all parts)
    unfolding unmount_all
    unmount_all-Emits [] h = search emit_rules
    unmount_all-Emits (part ∷ parts) h =
        let here = h part (inl refl) in
        Emits-bind _ _
          (Emits-handling _ _ (
            unmount_partition-Emits part.path (reads_uuid part here) (checks_luks part here)
              (lists_mounts part here) closes (unmounts part here) unmounts_mapper))
          (λ done. unmount_all-Emits parts (λ other among. h other (inr among)))

    -- What stands for the PVs that are kept for later
    abbrev OnDisk : Pv → Type 0
    OnDisk pv = (vg : Vg) × IsOn disk.path vg pv

    -- All of these are groups that LVM listed.
    abbrev AreListed : List Vg → Type 0
    AreListed groups =
        (vg : Vg) → Among vg groups → (all : List Vg) × Gave (vgs []) all × Among vg all

    is_on :
        (vg : Vg) (pv : Pv) (groups : List Vg)
        → AreListed (vg ∷ groups)
        → first_pv disk.path vg.pvs ≡ some pv
        → IsOn disk.path vg pv
    is_on vg pv groups listed e =
        let (all, gave, among) = listed vg (inl refl) in
        let (member, contained) = first_pv-Among disk.path vg.pvs pv e in
        record {
          groups = all;
          listed = gave;
          group = among;
          member = member;
          contained = contained;
        }

    remove_vgs-Emits :
        (groups : List Vg)
        → AreListed groups
        → Emits (LabelEvent disk label) (remove_vgs disk.path groups)
    unfolding remove_vgs
    remove_vgs-Emits [] listed = Emits-pure []
    remove_vgs-Emits (vg ∷ groups) listed =
        let rest = remove_vgs-Emits groups (λ other among. listed other (inr among)) in
        elim (Option-cases (first_pv disk.path vg.pvs)) [
          | inl e ↦ rw (remove_vgs, e) rest
          | inr (pv, e) ↦
              rw (remove_vgs, e)
                (Emits-bind _ _
                  (Emits-handling _ _
                    (vgremove-Emits vg (removes_vg vg pv (is_on vg pv groups listed e))))
                  (λ done. Emits-bind _ _ rest (λ pvs. Emits-pure (pv ∷ pvs))))
        ]

    remove_vgs-Gave :
        (groups : List Vg) (w : World) (pvs : List Pv)
        → AreListed groups
        → (remove_vgs disk.path groups w).0 ≡ ok pvs
        → All OnDisk pvs
    unfolding remove_vgs pure
    remove_vgs-Gave [] w pvs listed h = let same : [] ≡ pvs = ok-injective h in rw (← same) tt
    remove_vgs-Gave (vg ∷ groups) w pvs listed h =
        let later : AreListed groups = λ other among. listed other (inr among) in
        elim (Option-cases (first_pv disk.path vg.pvs)) [
          | inl e ↦ remove_vgs-Gave groups w pvs later (rw (remove_vgs, e) at h)
          | inr (pv, e) ↦
              let (done, h1, h2) = bind-returns _ _ w (rw (remove_vgs, e) at h) in
              let (rest, h3, h4) = bind-returns _ _ _ h2 in
              let same : pv ∷ rest ≡ pvs = ok-injective h4 in
              rw (← same)
                ((vg, is_on vg pv groups listed e), remove_vgs-Gave groups _ rest later h3)
        ]

    remove_pvs-Emits :
        (pvs : List Pv) → All OnDisk pvs → Emits (LabelEvent disk label) (remove_pvs pvs)
    unfolding remove_pvs
    remove_pvs-Emits [] on = Emits-pure tt
    remove_pvs-Emits (pv ∷ pvs) ((vg, on), rest) =
        Emits-bind _ _
          (Emits-handling _ _ (pvremove-Emits pv (removes_pv vg pv on) (scans_pv vg pv on)))
          (λ done. remove_pvs-Emits pvs rest)

  -- Whatever the machine answers, and also when it fails, LabelDisk unmounts nothing but the disk's
  -- own partitions and mappers of LUKS, closes such mappers, and removes no VG but those that LVM
  -- lists with a PV whose path contains the path of the disk, and no PV but such; all else that it
  -- does is to look, to scan, and to label the disk.
  pub label_disk-Emits :
      (disk : Disk) (label : Text) → Emits (LabelEvent disk label) (label_disk disk label)
  unfolding label_disk join
  label_disk-Emits disk label =
      Emits-bind _ _ (unmount_all-Emits disk label disk.partitions (λ part among. among))
        (λ unmounted.
          Emits-bind_gave _ _ (Emits-handling _ _ (vgs-Emits [] lists_vgs lists_pvs lists_lvs))
            (λ groups gave.
              let listed : AreListed disk label groups =
                λ vg among. (groups, (gave.0, handling-returns _ _ gave.0 gave.1), among) in
              Emits-bind_gave _ _ (remove_vgs-Emits disk label groups listed) (λ pvs kept.
                Emits-bind _ _
                  (remove_pvs-Emits disk label pvs
                    (remove_vgs-Gave disk label groups kept.0 pvs listed kept.1))
                  (λ removed. Emits-handling _ _ (Emits-run_command _ labels)))))
