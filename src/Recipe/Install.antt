-- ===== src/Recipe/Install.antt =====
-- `Install` of core/recipe.go: the copy of the system, its tables and its initramfs.
use albius.Base.{
  true, false, List, [], ◌∷◌, Text, text, format, join_path, ◌==◌, list_eq, nat_eq, if◌then◌else◌,
}
use albius.Machine.{Platform, message, wrap, Go, pure, fail, ◌>>=◌, ◌>>◌, handling}
use albius.Util.{run_in_chroot}
use albius.Luks.{gen_crypttab}
use albius.Disk.Filesystem.{unsquashfs, gen_fstab, update_initramfs}
use albius.Disk.Images.{Images, oci_setup}
use albius.Recipe.Types.{Mountpoint, root_a}
use albius.Recipe.Tables.{setup_fstab_entries, setup_crypttab_entries}

pub record Installation : Type 0 where
  pub method : Text
  pub source : Text
  pub initramfs_pre : List Text
  pub initramfs_post : List Text

module _ ⦃P : Platform⦄ where
  -- A table with no entries is not written.
  unfoldable pub write_crypttab : List (List Text) → Go (Unit {0})
  write_crypttab [] = pure tt
  write_crypttab (entry ∷ entries) =
      handling (wrap (text "failed to generate crypttab: ")) (gen_crypttab root_a (entry ∷ entries))

  unfoldable pub install_crypttab : List Mountpoint → Go (Unit {0})
  install_crypttab mnts = do
    entries ←
        handling (wrap (text "failed to generate crypttab entries: ")) (setup_crypttab_entries mnts)
    write_crypttab entries

  unfoldable pub install_fstab : List Mountpoint → Go (Unit {0})
  install_fstab mnts = do
    entries ← handling (wrap (text "failed to generate fstab entries: ")) (setup_fstab_entries mnts)
    handling (wrap (text "failed to generate fstab: ")) (gen_fstab root_a entries)

  -- The scripts in front of and behind the update of the initramfs, by the name for their errors
  unfoldable pub run_scripts : Text → List Text → Go (Unit {0})
  run_scripts name [] = pure tt
  run_scripts name (script ∷ scripts) = do
    handling (wrap (format (name ∷ text " '" ∷ script ∷ text "' failed: " ∷ [])))
        (run_in_chroot root_a script)
    run_scripts name scripts

  unfoldable pub install_initramfs : Installation → Go (Unit {0})
  install_initramfs installation = do
    run_scripts (text "initramfs pre-script") installation.initramfs_pre
    handling (wrap (text "failed to update initramfs: ")) (update_initramfs root_a)
    run_scripts (text "initramfs post-script") installation.initramfs_post

  module _ ⦃I : Images⦄ where
    unfoldable pub copy_system : Installation → Go (Unit {0})
    copy_system installation =
        if installation.method == text "unsquashfs"
        then handling (wrap (text "failed to copy installation files: "))
            (unsquashfs installation.source root_a true)
        else if installation.method == text "oci"
        then handling (wrap (text "failed to copy installation files: "))
            (oci_setup installation.source (join_path (root_a ∷ text "var" ∷ [])) root_a false)
        else fail (
            message (
              format
                (text "unsupported installation method '" ∷ installation.method ∷ text "'" ∷ [])))

    -- Install
    unfoldable pub install : Installation → List Mountpoint → Go (Unit {0})
    install installation mnts = do
      copy_system installation
      install_crypttab mnts
      install_fstab mnts
      install_initramfs installation
