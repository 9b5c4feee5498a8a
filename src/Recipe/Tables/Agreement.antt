-- ===== src/Recipe/Tables/Agreement.antt =====
-- fstab and crypttab of one recipe (core/recipe.go), side by side.
use albius.Base.{◌≡◌, sym, ◌∙◌, Bool, true, false, List, [], ◌∷◌, ◌++◌, Text, text}
use albius.Machine.{Platform, ok, World, shell}
use albius.Machine.Steady.{Steady, Steady-handling}
use albius.Machine.Returns.{ok-injective}
use albius.Util.Steady.{Steady-output_of}
use albius.Luks.{is_luks_command, is_luks}
use albius.Luks.Steady.{Steady-is_luks}
use albius.Disk.Partition.{uuid_command, get_uuid_by_path}
use albius.Recipe.Types.{Mountpoint}
use albius.Recipe.Tables.{setup_fstab_entries, setup_crypttab_entries}
use albius.Recipe.Tables.Fields.{
  Answered, FstabLine, FstabLines, CrypttabLines, setup_fstab_entries-FstabLines,
  setup_crypttab_entries-CrypttabLines,
}

-- For each mountpoint there is a line of fstab with its target, by a UUID, or by a mapper; and
-- crypttab has the lines of those by a mapper, which open it under its name, in the same order.
pub data Agree : List Mountpoint → List (List Text) → List (List Text) → Type 0 where
  no_mountpoints : Agree [] [] []
  by_uuid :
      {mnt : Mountpoint} {mnts : List Mountpoint} {fstab crypttab : List (List Text)} (uuid : Text)
      (fields : List Text)
      → Agree mnts fstab crypttab
      → Agree (mnt ∷ mnts) (((text "UUID=" ++ uuid) ∷ mnt.target ∷ fields) ∷ fstab) crypttab
  by_mapper :
      {mnt : Mountpoint} {mnts : List Mountpoint} {fstab crypttab : List (List Text)}
      (name uuid : Text) (fields options : List Text)
      → Agree mnts fstab crypttab
      → Agree
          (mnt ∷ mnts)
          (((text "/dev/mapper/" ++ name) ∷ mnt.target ∷ fields) ∷ fstab)
          ((name ∷ (text "UUID=" ++ uuid) ∷ options) ∷ crypttab)

module _ ⦃P : Platform⦄
    (same_luks : (path : Text) (s s' : P.State)
      → (P.exec (shell [] (is_luks_command path)) s).0
        ≡ (P.exec (shell [] (is_luks_command path)) s').0)
    (same_uuid : (path : Text) (s s' : P.State)
      → (P.exec (shell [] (uuid_command path)) s).0
        ≡ (P.exec (shell [] (uuid_command path)) s').0) where
  one_luks :
      (path : Text) (a b : Bool) → Answered (is_luks path) a → Answered (is_luks path) b → a ≡ b
  one_luks path a b (w, e) (v, d) =
      ok-injective (sym e ∙ (Steady-is_luks path (same_luks path)).at w v ∙ d)

  Steady-uuid : (path : Text) → Steady (get_uuid_by_path path)
  unfolding get_uuid_by_path
  Steady-uuid path = Steady-handling _ _ (Steady-output_of (uuid_command path) (same_uuid path))

  one_uuid :
      (path a b : Text)
      → Answered (get_uuid_by_path path) a
      → Answered (get_uuid_by_path path) b
      → a ≡ b
  one_uuid path a b (w, e) (v, d) = ok-injective (sym e ∙ (Steady-uuid path).at w v ∙ d)

  add_plain :
      (mnt : Mountpoint) (mnts : List Mountpoint) (entry : List Text)
      (fstab crypttab : List (List Text))
      → FstabLine mnt entry
      → Answered (is_luks mnt.partition) false
      → Agree mnts fstab crypttab
      → Agree (mnt ∷ mnts) (entry ∷ fstab) crypttab
  add_plain mnt mnts entry fstab crypttab (FstabLine.encrypted uuid fstype options l u f o) h
        agree =
      cc (one_luks mnt.partition true false l h)
  add_plain mnt mnts entry fstab crypttab (FstabLine.plain uuid fstype options l u f o) h agree =
      Agree.by_uuid uuid _ agree

  add_encrypted :
      (mnt : Mountpoint) (mnts : List Mountpoint) (entry : List Text) (uuid : Text)
      (fstab crypttab : List (List Text))
      → FstabLine mnt entry
      → Answered (is_luks mnt.partition) true
      → Answered (get_uuid_by_path mnt.partition) uuid
      → Agree mnts fstab crypttab
      → Agree (mnt ∷ mnts) (entry ∷ fstab) (
          ((text "luks-" ++ uuid) ∷ (text "UUID=" ++ uuid) ∷ text "none" ∷ text "luks,discard" ∷ [])
          ∷ crypttab)
  unfolding text
  add_encrypted mnt mnts entry uuid fstab crypttab
        (FstabLine.encrypted uuid' fstype options l u f o) h g agree =
      rw (one_uuid mnt.partition uuid uuid' g u)
        (Agree.by_mapper (text "luks-" ++ uuid') uuid' _ _ agree)
  add_encrypted mnt mnts entry uuid fstab crypttab (FstabLine.plain uuid' fstype options l u f o) h
        g agree =
      cc (one_luks mnt.partition true false h l)

  lines-Agree :
      (mnts : List Mountpoint) (fstab crypttab : List (List Text))
      → FstabLines mnts fstab
      → CrypttabLines mnts crypttab
      → Agree mnts fstab crypttab
  lines-Agree _ _ _ FstabLines.no_lines CrypttabLines.no_lines = Agree.no_mountpoints
  lines-Agree _ _ _ (FstabLines.next_line line lines) (CrypttabLines.skip_line h rest) =
      add_plain _ _ _ _ _ line h (lines-Agree _ _ _ lines rest)
  lines-Agree _ _ _ (FstabLines.next_line line lines) (CrypttabLines.next_line h u rest) =
      add_encrypted _ _ _ _ _ _ line h u (lines-Agree _ _ _ lines rest)

  -- Where cryptsetup and lsblk answer the same each time, the tables that setupFstabEntries and
  -- setupCrypttabEntries return for a recipe agree: fstab has a line for each mountpoint, in their
  -- order and with their targets, and crypttab opens, in the same order, exactly the mappers that
  -- fstab names: a line of it has the name behind /dev/mapper/.
  pub setup_entries-Agree :
      (mnts : List Mountpoint) (w v : World) (fstab crypttab : List (List Text))
      → (setup_fstab_entries mnts w).0 ≡ ok fstab
      → (setup_crypttab_entries mnts v).0 ≡ ok crypttab
      → Agree mnts fstab crypttab
  setup_entries-Agree mnts w v fstab crypttab e d =
      lines-Agree mnts fstab crypttab (setup_fstab_entries-FstabLines mnts w e)
        (setup_crypttab_entries-CrypttabLines mnts v d)
