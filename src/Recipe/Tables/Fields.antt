-- ===== src/Recipe/Tables/Fields.antt =====
-- The lines of fstab and crypttab (core/recipe.go).
use albius.Base.{
  ◌≡◌, ◌≢◌, inl, inr, Bool-cases, ◌==◌, ==_refl, list_eq, nat_eq, list_beq_sound, text, format,
  append-nil, Bool, true, false, List, [], ◌∷◌, ◌++◌, Text,
}
use albius.Machine.{Platform, ok, World, Go, pure}
use albius.Machine.Returns.{ok-injective, bind-returns}
use albius.Luks.{mapper_path, luks_name, is_luks, get_luks_filesystem_by_path}
use albius.Disk.Partition.{get_uuid_by_path, get_filesystem_by_path}
use albius.Recipe.Types.{Mountpoint}
use albius.Recipe.Tables.{
  uuid_name, mount_options, fstab_fields, crypttab_fields, fstab_source, fstab_entry,
  setup_fstab_entries, crypttab_entry, setup_crypttab_entries,
}

-- The texts of the names
mapper_path_lem : (uuid : Text) → mapper_path uuid ≡ text "/dev/mapper/luks-" ++ uuid
unfolding mapper_path format text
mapper_path_lem uuid = rw append-nil

luks_name_lem : (uuid : Text) → luks_name uuid ≡ text "luks-" ++ uuid
unfolding luks_name format text
luks_name_lem uuid = rw append-nil

uuid_name_lem : (uuid : Text) → uuid_name uuid ≡ text "UUID=" ++ uuid
unfolding uuid_name format text
uuid_name_lem uuid = rw append-nil

differs : (a b : Text) → (a == b) ≡ false → a ≢ b
differs a b e d = cc (e, d, ==_refl b)

module _ ⦃P : Platform⦄ where
  -- In some world the machine gave this answer.
  abbrev pub Answered : {A : Type 0} → Go A → A → Type 0
  Answered m a = (w : World) × ((m w).0 ≡ ok a)

  -- The options of a target
  pub data OptionsFor (target : Text) : Text → Type 0 where
    on_efi : target ≡ text "/boot/efi" → OptionsFor target (text "umask=0077")
    on_boot : target ≡ text "/boot" → OptionsFor target (text "noatime,errors=remount-ro")
    elsewhere :
        target ≢ text "/boot/efi" → target ≢ text "/boot" → OptionsFor target (text "defaults")

  mount_options-OptionsFor : (target : Text) → OptionsFor target (mount_options target)
  unfolding mount_options
  mount_options-OptionsFor target = elim (Bool-cases (target == text "/boot/efi")) [
    | inl e ↦ rw e (OptionsFor.on_efi (list_beq_sound _ _ e))
    | inr e ↦ elim (Bool-cases (target == text "/boot")) [
      | inl d ↦ rw (e, d) (OptionsFor.on_boot (list_beq_sound _ _ d))
      | inr d ↦ rw (e, d) (OptionsFor.elsewhere (differs target _ e) (differs target _ d))
    ]
  ]

  -- The six fields of a mountpoint: the name, the target, the type of the filesystem and the
  -- options. The name is that of the mapper, and the type that of the filesystem in it, where the
  -- partition is encrypted, and those of the partition itself where it is not.
  pub data FstabLine (mnt : Mountpoint) : List Text → Type 0 where
    encrypted :
        (uuid fstype options : Text)
        → Answered (is_luks mnt.partition) true
        → Answered (get_uuid_by_path mnt.partition) uuid
        → Answered (get_luks_filesystem_by_path mnt.partition) fstype
        → OptionsFor mnt.target options
        → FstabLine mnt (
            (text "/dev/mapper/luks-" ++ uuid)
            ∷ mnt.target
            ∷ fstype
            ∷ options
            ∷ text "0"
            ∷ text "0"
            ∷ [])
    plain :
        (uuid fstype options : Text)
        → Answered (is_luks mnt.partition) false
        → Answered (get_uuid_by_path mnt.partition) uuid
        → Answered (get_filesystem_by_path mnt.partition) fstype
        → OptionsFor mnt.target options
        → FstabLine mnt
            ((text "UUID=" ++ uuid) ∷ mnt.target ∷ fstype ∷ options ∷ text "0" ∷ text "0" ∷ [])

  -- A line for each mountpoint, in their order
  pub data FstabLines : List Mountpoint → List (List Text) → Type 0 where
    no_lines : FstabLines [] []
    next_line :
        {mnt : Mountpoint} {mnts : List Mountpoint} {entry : List Text} {entries : List (List Text)}
        → FstabLine mnt entry
        → FstabLines mnts entries
        → FstabLines (mnt ∷ mnts) (entry ∷ entries)

  source_line :
      (mnt : Mountpoint) (uuid fstype : Text) (luks : Bool) (w : World) (source : Text × Text)
      → Answered (get_uuid_by_path mnt.partition) uuid
      → Answered (get_filesystem_by_path mnt.partition) fstype
      → Answered (is_luks mnt.partition) luks
      → (fstab_source mnt.partition uuid fstype luks w).0 ≡ ok source
      → FstabLine mnt (fstab_fields source.0 mnt.target source.1)
  unfolding fstab_source fstab_fields pure
  source_line mnt uuid fstype true w source hu hf hl h =
      let (inner, hinner, h1) = bind-returns _ _ w h in
      let same : (mapper_path uuid, inner) ≡ source = ok-injective h1 in
      rw (← same, mapper_path_lem)
        (FstabLine.encrypted uuid inner _ hl hu (w, hinner) (mount_options-OptionsFor mnt.target))
  source_line mnt uuid fstype false w source hu hf hl h =
      let same : (uuid_name uuid, fstype) ≡ source = ok-injective h in
      rw (← same, uuid_name_lem)
        (FstabLine.plain uuid fstype _ hl hu hf (mount_options-OptionsFor mnt.target))

  fstab_entry-FstabLine :
      (mnt : Mountpoint) (w : World) {entry : List Text}
      → (fstab_entry mnt w).0 ≡ ok entry
      → FstabLine mnt entry
  unfolding fstab_entry pure
  fstab_entry-FstabLine mnt w {entry} h =
      let (uuid, hu, h1) = bind-returns _ _ w h in
      let (fstype, hf, h2) = bind-returns _ _ _ h1 in
      let (luks, hl, h3) = bind-returns _ _ _ h2 in
      let (source, hs, h4) = bind-returns _ _ _ h3 in
      let same : fstab_fields source.0 mnt.target source.1 ≡ entry = ok-injective h4 in
      rw (← same) (source_line mnt uuid fstype luks _ source (_, hu) (_, hf) (_, hl) hs)

  -- When setupFstabEntries returns its entries, they are a line for each mountpoint of the recipe,
  -- in its order: /dev/mapper/luks- and the UUID of an encrypted partition, UUID= and that of any
  -- other; the target; the type of the filesystem, of an encrypted partition that in it; the
  -- options of the target; and 0 twice. UUIDs and types are as the machine answered.
  pub setup_fstab_entries-FstabLines :
      (mnts : List Mountpoint) (w : World) {entries : List (List Text)}
      → (setup_fstab_entries mnts w).0 ≡ ok entries
      → FstabLines mnts entries
  unfolding setup_fstab_entries pure
  setup_fstab_entries-FstabLines [] w {entries} h =
      let same : [] ≡ entries = ok-injective h in rw (← same) no_lines
  setup_fstab_entries-FstabLines (mnt ∷ mnts) w {entries} h =
      let (entry, he, h1) = bind-returns _ _ w h in
      let (rest, hr, h2) = bind-returns _ _ _ h1 in
      let same : entry ∷ rest ≡ entries = ok-injective h2 in
      rw (← same)
        (next_line (fstab_entry-FstabLine mnt w he) (setup_fstab_entries-FstabLines mnts _ hr))

  -- A line for each mountpoint that answered to be encrypted, in their order, and for no other
  pub data CrypttabLines : List Mountpoint → List (List Text) → Type 0 where
    no_lines : CrypttabLines [] []
    skip_line :
        {mnt : Mountpoint} {mnts : List Mountpoint} {entries : List (List Text)}
        → Answered (is_luks mnt.partition) false
        → CrypttabLines mnts entries
        → CrypttabLines (mnt ∷ mnts) entries
    next_line :
        {mnt : Mountpoint} {mnts : List Mountpoint} {uuid : Text} {entries : List (List Text)}
        → Answered (is_luks mnt.partition) true
        → Answered (get_uuid_by_path mnt.partition) uuid
        → CrypttabLines mnts entries
        → CrypttabLines (mnt ∷ mnts) (
            ((text "luks-" ++ uuid)
              ∷ (text "UUID=" ++ uuid)
              ∷ text "none"
              ∷ text "luks,discard"
              ∷ [])
            ∷ entries)

  add_line :
      (mnt : Mountpoint) (mnts : List Mountpoint) (luks : Bool) (w : World)
      (lines rest : List (List Text))
      → Answered (is_luks mnt.partition) luks
      → (crypttab_entry mnt.partition luks w).0 ≡ ok lines
      → CrypttabLines mnts rest
      → CrypttabLines (mnt ∷ mnts) (lines ++ rest)
  unfolding crypttab_entry crypttab_fields pure
  add_line mnt mnts false w lines rest hl h hrest =
      let same : [] ≡ lines = ok-injective h in rw (← same) (skip_line hl hrest)
  add_line mnt mnts true w lines rest hl h hrest =
      let (uuid, hu, h1) = bind-returns _ _ w h in
      let same : crypttab_fields uuid ∷ [] ≡ lines = ok-injective h1 in
      rw (← same, luks_name_lem, uuid_name_lem) (CrypttabLines.next_line hl (w, hu) hrest)

  -- When setupCrypttabEntries returns its entries, they are a line for each mountpoint that the
  -- machine answered to be encrypted, in the recipe's order, and no other: luks- and the UUID, the
  -- device UUID= and the UUID, no key file, and the options.
  pub setup_crypttab_entries-CrypttabLines :
      (mnts : List Mountpoint) (w : World) {entries : List (List Text)}
      → (setup_crypttab_entries mnts w).0 ≡ ok entries
      → CrypttabLines mnts entries
  unfolding setup_crypttab_entries pure
  setup_crypttab_entries-CrypttabLines [] w {entries} h =
      let same : [] ≡ entries = ok-injective h in rw (← same) no_lines
  setup_crypttab_entries-CrypttabLines (mnt ∷ mnts) w {entries} h =
      let (luks, hl, h1) = bind-returns _ _ w h in
      let (lines, he, h2) = bind-returns _ _ _ h1 in
      let (rest, hr, h3) = bind-returns _ _ _ h2 in
      let same : lines ++ rest ≡ entries = ok-injective h3 in
      rw (← same) (
        add_line mnt mnts luks _ lines rest (w, hl) he
          (setup_crypttab_entries-CrypttabLines mnts _ hr))
