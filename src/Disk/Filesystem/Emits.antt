-- ===== src/Disk/Filesystem/Emits.antt =====
-- The command of MakeFs (core/disk/filesystem.go).
use albius.Base.{
  Bool, true, false, ◌||◌, ◌==◌, list_eq, nat_eq, if◌then◌else◌, Option, none, some, [], ◌∷◌, ◌++◌,
  append_assoc, Text, text, format,
}
use albius.Machine.{Platform, Event, ran, shell}
use albius.Machine.Emits.{Emits, emit_rules}
use albius.Machine.Words.{WorksOn, WorksOn-last}
use albius.Util.Emits.{util_rules}
use albius.Disk.Types.{Partition, ext2, ext3, ext4, fat16, fat32, hfs, hfs_plus, linux_swap, udf}
use albius.Disk.Filesystem.{makefs_command, run_makefs, make_fs}

-- No command, or one that works on the path
abbrev Makes : Text → Option Text → Type 0
Makes path none = Unit {0}
Makes path (some c) = WorksOn path c

Makes-if :
    (path : Text) (b : Bool) (x y : Option Text)
    → Makes path x
    → Makes path y
    → Makes path (if b then x else y)
Makes-if path true x y hx hy = hx
Makes-if path false x y hx hy = hy

mkfs_on :
    (fs option path : Text)
    → WorksOn path (format (text "mkfs." ∷ fs ∷ (option ++ (b' ' ∷ [])) ∷ path ∷ []))
unfolding format text
mkfs_on fs option path =
    rw
      (
        append_assoc option (b' ' ∷ []) (path ++ []),
        ← append_assoc (text "mkfs." ++ fs) option (b' ' ∷ (path ++ [])),
      )
      (WorksOn-last (text "mkfs." ++ (fs ++ option)) path)

makefs_command-Makes : (fs path : Text) → Makes path (makefs_command fs path)
unfolding makefs_command format text
makefs_command-Makes fs path =
    Makes-if path (fs == fat16) _ _ (WorksOn-last (text "mkfs.fat -I -F 16") path) (
      Makes-if path (fs == fat32) _ _ (WorksOn-last (text "mkfs.fat -I -F 32") path) (
        Makes-if path (fs == ext2 || (fs == ext3 || fs == ext4)) _ _ (mkfs_on fs (text " -F") path)
          (Makes-if path (fs == linux_swap) _ _ (WorksOn-last (text "mkswap -f") path) (
            Makes-if path (fs == hfs || (fs == hfs_plus || fs == udf)) _ _ tt
              (mkfs_on fs (text " -f") path)))))

module _ ⦃P : Platform⦄ {E : Event → Type 0} where
  run_makefs-Emits :
      (part : Partition) (c : Option Text)
      → Makes part.path c
      → ((c : Text) → WorksOn part.path c → E (ran (shell [] c)))
      → Emits E (run_makefs part c)
  unfolding run_makefs
  run_makefs-Emits part none h works = search emit_rules
  run_makefs-Emits part (some c) h works = search (emit_rules, util_rules, works)

  pub make_fs-Emits :
      (part : Partition)
      → ((c : Text) → WorksOn part.path c → E (ran (shell [] c)))
      → Emits E (make_fs part)
  unfolding make_fs
  make_fs-Emits part works = run_makefs-Emits part _ (makefs_command-Makes _ _) works
