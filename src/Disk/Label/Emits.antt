-- ===== src/Disk/Label/Emits.antt =====
-- The command of SetLabel (core/disk/partition.go).
use albius.Base.{
  Bool, true, false, ◌||◌, ◌==◌, list_eq, nat_eq, if◌then◌else◌, [], ◌∷◌, ◌++◌, append_assoc, Text,
  text, format,
}
use albius.Machine.{Platform, Event, ran, shell}
use albius.Machine.Emits.{Emits, emit_rules}
use albius.Machine.Words.{WorksOn, WorksOn-last, WorksOn-inner}
use albius.Util.Emits.{util_rules}
use albius.Disk.Types.{
  Partition, btrfs, ext2, ext3, ext4, fat16, fat32, linux_swap, ntfs, reiserfs, xfs,
}
use albius.Disk.Label.{
  Labelling, command, nothing, unsupported, labelling, apply_labelling, set_label,
}

-- No command, or one that works on the path
abbrev Labels : Text → Labelling → Type 0
Labels path (command c) = WorksOn path c
Labels path nothing = Unit {0}
Labels path unsupported = Unit {0}

Labels-if :
    (path : Text) (b : Bool) (x y : Labelling)
    → Labels path x
    → Labels path y
    → Labels path (if b then x else y)
Labels-if path true x y hx hy = hx
Labels-if path false x y hx hy = hy

tune_on : (tool label path : Text) → WorksOn path (tool ++ (label ++ (b' ' ∷ (path ++ []))))
tune_on tool label path =
    rw (← append_assoc tool label (b' ' ∷ (path ++ []))) (WorksOn-last (tool ++ label) path)

labelling-Labels : (fs path label : Text) → Labels path (labelling fs path label)
unfolding labelling format text
labelling-Labels fs path label =
    Labels-if path (fs == fat16 || fs == fat32) _ _ (WorksOn-inner (text "fatlabel") path _) (
      Labels-if path (fs == ext2 || (fs == ext3 || fs == ext4)) _ _
        (WorksOn-inner (text "e2label") path _)
        (Labels-if path (fs == btrfs) _ _ (WorksOn-inner (text "btrfs filesystem label") path _) (
          Labels-if path (fs == reiserfs) _ _ (tune_on (text "reiserfstune -l ") label path) (
            Labels-if path (fs == xfs) _ _ (tune_on (text "xfs_admin -L ") label path) (
              Labels-if path (fs == linux_swap) _ _ tt
                (Labels-if path (fs == ntfs) _ _ (WorksOn-inner (text "ntfslabel") path _) tt))))))

module _ ⦃P : Platform⦄ {E : Event → Type 0} where
  apply_labelling-Emits :
      (part : Partition) (how : Labelling)
      → Labels part.path how
      → ((c : Text) → WorksOn part.path c → E (ran (shell [] c)))
      → Emits E (apply_labelling part how)
  unfolding apply_labelling
  apply_labelling-Emits part (command c) h works = search (emit_rules, util_rules, works)
  apply_labelling-Emits part nothing h works = search emit_rules
  apply_labelling-Emits part unsupported h works = search emit_rules

  pub set_label-Emits :
      (part : Partition) (label : Text)
      → ((c : Text) → WorksOn part.path c → E (ran (shell [] c)))
      → Emits E (set_label part label)
  unfolding set_label
  set_label-Emits part label works = apply_labelling-Emits part _ (labelling-Labels _ _ _) works
