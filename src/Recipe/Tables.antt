-- ===== src/Recipe/Tables.antt =====
-- The entries of fstab and crypttab (core/recipe.go).
pub mod Agreement
pub mod Fields
use albius.Base.{
  Bool, true, false, List, [], ◌∷◌, ◌++◌, Text, text, format, ◌==◌, list_eq, nat_eq, if◌then◌else◌,
}
use albius.Machine.{Platform, Go, pure, ◌>>=◌}
use albius.Luks.{mapper_path, luks_name, is_luks, get_luks_filesystem_by_path}
use albius.Disk.Partition.{get_uuid_by_path, get_filesystem_by_path}
use albius.Recipe.Types.{Mountpoint}

unfoldable pub uuid_name : Text → Text
uuid_name uuid = format (text "UUID=" ∷ uuid ∷ [])

unfoldable pub mount_options : Text → Text
mount_options target =
    if target == text "/boot/efi"
    then text "umask=0077"
    else if target == text "/boot"
    then text "noatime,errors=remount-ro"
    else text "defaults"

unfoldable pub fstab_fields : Text → Text → Text → List Text
fstab_fields name target fstype =
    name ∷ target ∷ fstype ∷ mount_options target ∷ text "0" ∷ text "0" ∷ []

unfoldable pub crypttab_fields : Text → List Text
crypttab_fields uuid = luks_name uuid ∷ uuid_name uuid ∷ text "none" ∷ text "luks,discard" ∷ []

module _ ⦃P : Platform⦄ where
  -- The name and the type of the filesystem: those behind the mapper of an encrypted partition
  fstab_source : Text → Text → Text → Bool → Go (Text × Text)
  fstab_source path uuid fstype true = do
    inner ← get_luks_filesystem_by_path path
    pure (mapper_path uuid, inner)
  fstab_source path uuid fstype false = pure (uuid_name uuid, fstype)

  unfoldable pub fstab_entry : Mountpoint → Go (List Text)
  unfolding fstab_source
  fstab_entry mnt = do
    uuid ← get_uuid_by_path mnt.partition
    fstype ← get_filesystem_by_path mnt.partition
    luks ← is_luks mnt.partition
    source ← fstab_source mnt.partition uuid fstype luks
    pure (fstab_fields source.0 mnt.target source.1)

  -- setupFstabEntries
  unfoldable pub setup_fstab_entries : List Mountpoint → Go (List (List Text))
  setup_fstab_entries [] = pure []
  setup_fstab_entries (mnt ∷ mnts) = do
    entry ← fstab_entry mnt
    entries ← setup_fstab_entries mnts
    pure (entry ∷ entries)

  crypttab_entry : Text → Bool → Go (List (List Text))
  crypttab_entry path false = pure []
  crypttab_entry path true = do uuid ← get_uuid_by_path path; pure (crypttab_fields uuid ∷ [])

  -- setupCrypttabEntries: an entry for each encrypted partition
  unfoldable pub setup_crypttab_entries : List Mountpoint → Go (List (List Text))
  unfolding crypttab_entry
  setup_crypttab_entries [] = pure []
  setup_crypttab_entries (mnt ∷ mnts) = do
    luks ← is_luks mnt.partition
    entry ← crypttab_entry mnt.partition luks
    entries ← setup_crypttab_entries mnts
    pure (entry ++ entries)
