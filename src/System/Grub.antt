-- ===== src/System/Grub.antt =====
-- core/system/grub.go: scripts and the boot loader.
pub mod Scripts
use albius.Base.{
  Bool, not, ◌&&◌, List, [], ◌∷◌, Text, text, format, join_path, base_name, ◌==◌, list_eq, nat_eq,
  if◌then◌else◌,
}
use albius.Machine.{
  Platform, Stat, present, absent, unreadable, message, wrap, Outcome, ok, err, Go, pure, fail,
  ◌>>=◌, ◌>>◌, handling, lift, stat_path,
}
use albius.Machine.Files.{read_file, write_file, remove_file}
use albius.Util.{run_command, separate_disk_part}
use albius.System.Settings.{run_at}

unfoldable pub script_path : Text → Text → Text
script_path root name = join_path (root ∷ text "/etc/grub.d" ∷ name ∷ [])

unfoldable pub bind_target_command : Text → Text → Text
bind_target_command root bind =
    format (text "mount --bind " ∷ bind ∷ text " " ∷ join_path (root ∷ bind ∷ []) ∷ [])

abbrev pub required_binds : List Text
required_binds = text "/dev" ∷ text "/dev/pts" ∷ text "/proc" ∷ text "/sys" ∷ text "/run" ∷ []

unfoldable pub grub_install_command : Text → Text → Text → Text → Bool → Text
grub_install_command boot_directory disk_path grub_target entry_name removable = format (
    text "grub-install --no-nvram "
    ∷ (if removable then text "--removable" else [])
    ∷ text " --bootloader-id="
    ∷ entry_name
    ∷ text " --boot-directory "
    ∷ boot_directory
    ∷ text " --target="
    ∷ grub_target
    ∷ text " --uefi-secure-boot "
    ∷ disk_path
    ∷ [])

unfoldable pub efibootmgr_command : Text → Text → Text → Text → Text
efibootmgr_command disk_name part entry_name bootloader_file = format (
    text "efibootmgr --create --disk="
    ∷ disk_name
    ∷ text " --part="
    ∷ part
    ∷ text " --label="
    ∷ entry_name
    ∷ text " --loader=\"\\EFI\\"
    ∷ entry_name
    ∷ text "\\"
    ∷ bootloader_file
    ∷ text "\""
    ∷ [])

unfoldable pub mkconfig_command : Text → Text
mkconfig_command output = format (text "grub-mkconfig -o " ∷ output ∷ [])

module _ ⦃P : Platform⦄ where
  unfoldable pub unsupported_arch : {A : Type 0} → Outcome A
  unsupported_arch = err (message (format (text "unsupported architecture: " ∷ P.arch ∷ [])))

  -- GetGrubTarget
  unfoldable pub get_grub_target : Text → Outcome Text
  unfolding unsupported_arch
  get_grub_target target =
      if target == text "bios"
      then ok (text "i386-pc")
      else if target == text "efi"
      then (if P.arch == text "amd64"
          then ok (text "x86_64-efi")
          else if P.arch == text "arm64"
          then ok (text "arm64-efi")
          else unsupported_arch)
      else err (message (format (text "unrecognized firmware type: " ∷ target ∷ [])))

  -- GetEFIBootloaderFile
  unfoldable pub get_efi_bootloader_file : Outcome Text
  unfolding unsupported_arch
  get_efi_bootloader_file =
      if P.arch == text "amd64"
      then ok (text "shimx64.efi")
      else if P.arch == text "arm64"
      then ok (text "shimaa64.efi")
      else unsupported_arch

  unfoldable pub copy_script : Text → Text → Go (Unit {0})
  copy_script root path = do
    contents ←
        handling (wrap (format (text "failed to read GRUB script at " ∷ path ∷ text ": " ∷ [])))
          (read_file path)
    handling
        (wrap (
          format (
            text "failed to writing GRUB script to "
            ∷ script_path root (base_name path)
            ∷ text ": "
            ∷ [])))
        (write_file (script_path root (base_name path)) contents)

  unfoldable pub add_script_at : Text → Text → Stat → Go (Unit {0})
  add_script_at root path absent =
      fail
        (message (format (text "error adding GRUB script: " ∷ path ∷ text " does not exist" ∷ [])))
  add_script_at root path present = copy_script root path
  add_script_at root path (unreadable why) = copy_script root path

  -- AddGrubScript
  unfoldable pub add_grub_script : Text → Text → Go (Unit {0})
  unfolding add_script_at
  add_grub_script root path = do found ← stat_path path; add_script_at root path found

  unfoldable pub remove_script_at : Text → Stat → Go (Unit {0})
  remove_script_at path absent =
      fail (
        message (format (text "error removing GRUB script: " ∷ path ∷ text " does not exist" ∷ [])))
  remove_script_at path present =
      handling (wrap (text "error removing GRUB script: ")) (remove_file path)
  remove_script_at path (unreadable why) =
      handling (wrap (text "error removing GRUB script: ")) (remove_file path)

  -- RemoveGrubScript
  unfoldable pub remove_grub_script : Text → Text → Go (Unit {0})
  unfolding remove_script_at
  remove_grub_script root name = do
    found ← stat_path (script_path root name)
    remove_script_at (script_path root name) found

  -- The directories that are bound under a root, in front of grub-install
  unfoldable pub bind_targets : Text → List Text → Go (Unit {0})
  bind_targets root [] = pure tt
  bind_targets root (bind ∷ binds) = do
    handling (wrap (format (text "failed to mount " ∷ bind ∷ text " to " ∷ root ∷ text ": " ∷ [])))
        (run_command (bind_target_command root bind))
    bind_targets root binds

  unfoldable pub add_boot_entry : Text → List Text → Go (Unit {0})
  add_boot_entry entry_name [] = fail (message (text "EFI device was not specified"))
  add_boot_entry entry_name (device ∷ devices) =
      if device == [] then fail (message (text "EFI device was not specified")) else do
        bootloader_file ← lift get_efi_bootloader_file
        handling (wrap (text "failed to run efibootmgr for grub-install: ")) (
            run_command (
              efibootmgr_command (separate_disk_part device).0 (separate_disk_part device).1
                entry_name bootloader_file))

  unfoldable pub prepare_root : Text → Go (Unit {0})
  prepare_root root = if root == [] then pure tt else bind_targets root required_binds

  unfoldable pub boot_entry_if : Bool → Text → List Text → Go (Unit {0})
  unfolding add_boot_entry
  boot_entry_if needed entry_name efi_device =
      if needed then add_boot_entry entry_name efi_device else pure tt

  -- RunGrubInstall
  unfoldable pub run_grub_install :
      Text → Text → Text → Text → Text → Bool → List Text → Go (Unit {0})
  run_grub_install root boot_directory disk_path target entry_name removable efi_device = do
    prepare_root root
    grub_target ← lift (get_grub_target target)
    handling (wrap (text "failed to run grub-install: ")) (
        run_at root
          (grub_install_command boot_directory disk_path grub_target entry_name removable))
    boot_entry_if (not removable && target == text "efi") entry_name efi_device

  -- RunGrubMkconfig
  unfoldable pub run_grub_mkconfig : Text → Text → Go (Unit {0})
  run_grub_mkconfig root output = run_at root (mkconfig_command output)
