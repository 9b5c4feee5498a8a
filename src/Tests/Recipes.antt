-- ===== src/Tests/Recipes.antt =====
-- The order of mounting, and what mounting does
use albius.Recipe.Tables.Agreement.{Agree, setup_entries-Agree}
use albius.Base.{ℕ, ◌≡◌, refl, some, List, [], ◌∷◌, Text, text, count_byte, list_beq}
use albius.Machine.Emits.{Emits}
use albius.Recipe.Types.{Mountpoint}
use albius.Recipe.Order.{at_depth, order_mountpoints, order_loop, depth, max_depth}
use albius.Recipe.Order.Sorted.{IsOrdered, order_mountpoints-IsOrdered}
use albius.Recipe.Mounts.{setup_mountpoints}
use albius.Recipe.Mounts.Safety.{MountEvent, setup_mountpoints-Emits}
use albius.Base.{none, trim_space}
use albius.Machine.{Platform, World, ok, run_process, perform, ◌>>=◌, pure, handling}
use albius.Util.{output_command, output_of}
use albius.Luks.{mapper_path, is_luks, get_luks_filesystem_by_path}
use albius.Disk.Partition.{get_uuid_by_path, get_filesystem_by_path}
use albius.Recipe.Tables.{
  fstab_fields, crypttab_fields, fstab_entry, setup_fstab_entries, setup_crypttab_entries,
}
use albius.Recipe.Tables.Fields.{
  FstabLines, CrypttabLines, setup_fstab_entries-FstabLines, setup_crypttab_entries-CrypttabLines,
}
use albius.Tests.Scripted.{agreeable, silent}

abbrev at : Text → Text → Mountpoint
at partition target = record { partition = partition; target = target }

abbrev efi : Mountpoint
efi = at (text "/dev/sda1") (text "/boot/efi")

abbrev boot : Mountpoint
boot = at (text "/dev/sda2") (text "/boot")

abbrev root : Mountpoint
root = at (text "/dev/sda3") (text "/")

ordered_three : order_mountpoints (efi ∷ boot ∷ root ∷ []) ≡ some (root ∷ boot ∷ efi ∷ [])
unfolding order_mountpoints order_loop at_depth depth max_depth count_byte text list_beq
ordered_three = refl

order_mountpoints-IsOrdered_example :
    (ordered : List Mountpoint) × (order_mountpoints (efi ∷ boot ∷ root ∷ []) ≡ some ordered)
    × IsOrdered ordered
    × ((d : ℕ) → at_depth d ordered ≡ at_depth d (efi ∷ boot ∷ root ∷ []))
order_mountpoints-IsOrdered_example = order_mountpoints-IsOrdered (efi ∷ boot ∷ root ∷ [])

setup_mountpoints-Emits_example :
    Emits ⦃P = silent⦄
      (MountEvent (efi ∷ boot ∷ root ∷ []))
      (setup_mountpoints ⦃P = silent⦄ (efi ∷ boot ∷ root ∷ []))
setup_mountpoints-Emits_example = setup_mountpoints-Emits ⦃P = silent⦄ (efi ∷ boot ∷ root ∷ [])

abbrev answering : Platform
answering = agreeable none

abbrev start : World ⦃P = answering⦄
start = record { state = tt; log = [] }

abbrev fstab_lines : List (List Text)
fstab_lines =
    fstab_fields (mapper_path (text "5")) (text "/boot") (text "5")
    ∷ fstab_fields (mapper_path (text "5")) (text "/") (text "5")
    ∷ []

two_lines : (setup_fstab_entries ⦃P = answering⦄ (boot ∷ root ∷ []) start).0 ≡ ok fstab_lines
unfolding setup_fstab_entries fstab_entry get_uuid_by_path get_filesystem_by_path is_luks
    get_luks_filesystem_by_path output_of output_command run_process perform ◌>>=◌ pure handling
    text trim_space
two_lines = refl

setup_fstab_entries-FstabLines_example : FstabLines ⦃P = answering⦄ (boot ∷ root ∷ []) fstab_lines
setup_fstab_entries-FstabLines_example =
    setup_fstab_entries-FstabLines ⦃P = answering⦄ (boot ∷ root ∷ []) start {entries = fstab_lines}
      two_lines

abbrev crypttab_line : List (List Text)
crypttab_line = crypttab_fields (text "5") ∷ []

one_line : (setup_crypttab_entries ⦃P = answering⦄ (root ∷ []) start).0 ≡ ok crypttab_line
unfolding setup_crypttab_entries get_uuid_by_path is_luks output_of output_command run_process
    perform ◌>>=◌ pure handling text trim_space
one_line = refl

setup_crypttab_entries-CrypttabLines_example :
    CrypttabLines ⦃P = answering⦄ (root ∷ []) crypttab_line
setup_crypttab_entries-CrypttabLines_example =
    setup_crypttab_entries-CrypttabLines ⦃P = answering⦄ (root ∷ []) start {entries = crypttab_line}
      one_line

two_crypttab_lines :
    (setup_crypttab_entries ⦃P = answering⦄ (boot ∷ root ∷ []) start).0
    ≡ ok (crypttab_fields (text "5") ∷ crypttab_line)
unfolding setup_crypttab_entries get_uuid_by_path is_luks output_of output_command run_process
    perform ◌>>=◌ pure handling text trim_space
two_crypttab_lines = refl

setup_entries-Agree_example :
    Agree (boot ∷ root ∷ []) fstab_lines (crypttab_fields (text "5") ∷ crypttab_line)
setup_entries-Agree_example =
    setup_entries-Agree ⦃P = answering⦄ (λ path s s'. refl) (λ path s s'. refl) (boot ∷ root ∷ [])
      start start fstab_lines (crypttab_fields (text "5") ∷ crypttab_line) two_lines
      two_crypttab_lines
