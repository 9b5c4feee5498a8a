-- ===== src/Recipe/PostInstall/Calls.antt =====
-- What the functions of core/system do when they are called for a chroot.
use albius.Base.{
  ◌≡◌, refl, inl, inr, All, Among, format, Bool, List, [], ◌∷◌, ◌++◌, Text, text, ℤ, join_path,
  clean, clean_parts, clean_step, cleaned, split, has_prefix, join, list_beq,
}
use albius.Machine.{
  Platform, Event, ran, wrote, removed, shell, chroot, Stat, present, absent, unreadable,
}
use albius.Machine.Emits.{Emits, Emits-bind, Emits-handling, Emits-observe, emit_rules}
use albius.Machine.Files.Emits.{Emits-remove_file, file_rules}
use albius.Util.Emits.{Emits-run_command, util_rules}
use albius.System.Settings.{
  supported_command, locale_gen_command, run_at, set_timezone, set_password, add_groups, add_user,
  remove_packages, change_hostname, set_locale, swapon, set_keyboard_layout,
}
use albius.System.Config.{
  GrubConfig, grub_file, read_config, read_config_at, get_grub_config, write_grub_config,
}
use albius.System.Grub.{
  required_binds, script_path, bind_target_command, efibootmgr_command, add_grub_script,
  remove_script_at, remove_grub_script, bind_targets, prepare_root, add_boot_entry, boot_entry_if,
  run_grub_install, run_grub_mkconfig,
}
use albius.System.Grub.Scripts.{adds_script}
use albius.Base.Below.{IsBelow}
use albius.Recipe.Types.{root_a}

-- The files with settings that the steps write
abbrev pub settings_files : List Text
settings_files =
    text "/mnt/a/etc/timezone"
    ∷ text "/mnt/a/etc/hostname"
    ∷ text "/mnt/a/etc/hosts"
    ∷ text "/mnt/a/etc/default/locale"
    ∷ text "/mnt/a/etc/default/keyboard"
    ∷ text "/mnt/a/etc/default/grub"
    ∷ []

abbrev pub bound_directories : List Text
bound_directories = text "/dev" ∷ text "/dev/pts" ∷ text "/proc" ∷ text "/sys" ∷ text "/run" ∷ []

-- The events of a chroot step: a command in the chroot, the writing of a file with settings or of a
-- file in /mnt/a/etc, the removal of the file that filepath.Join makes of the scripts' directory
-- and a name that the step was given, and four kinds of command on the machine itself.
pub data ChrootEvent (IsGiven : Text → Type 0) : Event → Type 0 where
  runs : (command : Text) → ChrootEvent IsGiven (ran (chroot (text "/mnt/a") command))
  writes_settings :
      (path bytes : Text) → Among path settings_files → ChrootEvent IsGiven (wrote path bytes)
  writes_script :
      (path bytes : Text)
      → IsBelow (text "/mnt/a/etc") path
      → ChrootEvent IsGiven (wrote path bytes)
  removes :
      (name : Text)
      → IsGiven name
      → ChrootEvent IsGiven (removed (join_path (text "/mnt/a" ∷ text "/etc/grub.d" ∷ name ∷ [])))
  tests_locale :
      (locale : Text)
      → ChrootEvent IsGiven
          (ran (shell [] (text "grep " ++ locale ++ text " /mnt/a/usr/share/i18n/SUPPORTED")))
  edits_locales :
      (quoted : Text)
      → ChrootEvent IsGiven (
          ran (
            shell []
              (text "sed -i 's/^\\# \\(" ++ quoted ++ text "\\)/\\1/' /mnt/a/etc/locale.gen")))
  binds :
      (dir : Text)
      → Among dir bound_directories
      → ChrootEvent IsGiven (ran (shell [] (text "mount --bind " ++ dir ++ text " /mnt/a" ++ dir)))
  adds_entry :
      (arguments : Text)
      → ChrootEvent IsGiven (ran (shell [] (text "efibootmgr --create --disk=" ++ arguments)))

module _ (IsGiven : Text → Type 0) where
  writes_locale :
      (locale : Text) → ChrootEvent IsGiven (ran (shell [] (supported_command locale root_a)))
  unfolding supported_command format text
  writes_locale locale = tests_locale locale

  edits : (locale : Text) → ChrootEvent IsGiven (ran (shell [] (locale_gen_command locale root_a)))
  unfolding locale_gen_command format text
  edits locale = edits_locales _

  adds :
      (disk part entry file : Text)
      → ChrootEvent IsGiven (ran (shell [] (efibootmgr_command disk part entry file)))
  unfolding efibootmgr_command format text
  adds disk part entry file = adds_entry _

  writes_config : (bytes : Text) → ChrootEvent IsGiven (wrote (grub_file root_a) bytes)
  unfolding grub_file join_path clean clean_parts clean_step cleaned split has_prefix join text
      list_beq
  writes_config bytes = writes_settings _ bytes (inr (inr (inr (inr (inr (inl refl))))))

  writes_timezone :
      (bytes : Text) → ChrootEvent IsGiven (wrote (root_a ++ text "/etc/timezone") bytes)
  unfolding text
  writes_timezone bytes = writes_settings _ bytes (inl refl)

  writes_hostname :
      (bytes : Text) → ChrootEvent IsGiven (wrote (root_a ++ text "/etc/hostname") bytes)
  unfolding text
  writes_hostname bytes = writes_settings _ bytes (inr (inl refl))

  writes_hosts : (bytes : Text) → ChrootEvent IsGiven (wrote (root_a ++ text "/etc/hosts") bytes)
  unfolding text
  writes_hosts bytes = writes_settings _ bytes (inr (inr (inl refl)))

  writes_default_locale :
      (bytes : Text) → ChrootEvent IsGiven (wrote (root_a ++ text "/etc/default/locale") bytes)
  unfolding text
  writes_default_locale bytes = writes_settings _ bytes (inr (inr (inr (inl refl))))

  writes_keyboard :
      (bytes : Text) → ChrootEvent IsGiven (wrote (root_a ++ text "/etc/default/keyboard") bytes)
  unfolding text
  writes_keyboard bytes = writes_settings _ bytes (inr (inr (inr (inr (inl refl)))))

  binds_dir :
      (dir : Text)
      → Among dir bound_directories
      → bind_target_command root_a dir ≡ text "mount --bind " ++ dir ++ text " /mnt/a" ++ dir
      → ChrootEvent IsGiven (ran (shell [] (bind_target_command root_a dir)))
  binds_dir dir among e = rw e (binds dir among)

ruleset event_rules = (
  runs, writes_locale, edits, adds, writes_config, writes_timezone, writes_hostname, writes_hosts,
  writes_default_locale, writes_keyboard,
)

module _ ⦃P : Platform⦄ (IsGiven : Text → Type 0) where
  pub run_at-Emits : (command : Text) → Emits (ChrootEvent IsGiven) (run_at root_a command)
  unfolding run_at list_beq text
  run_at-Emits command = search (emit_rules, util_rules, event_rules)

  ruleset step_rules = (emit_rules, util_rules, file_rules, run_at-Emits, event_rules)

  pub set_timezone-Emits : (tz : Text) → Emits (ChrootEvent IsGiven) (set_timezone root_a tz)
  unfolding set_timezone
  set_timezone-Emits tz = search step_rules

  set_password-Emits :
      (username password : Text)
      → Emits (ChrootEvent IsGiven) (set_password root_a username password)
  unfolding set_password
  set_password-Emits username password = search step_rules

  add_groups-Emits :
      (username : Text) (groups : List Text)
      → Emits (ChrootEvent IsGiven) (add_groups root_a username groups)
  unfolding add_groups
  add_groups-Emits username groups = search step_rules

  pub add_user-Emits :
      (username fullname : Text) (groups : List Text) (password : Text) (uid gid : ℤ)
      → Emits (ChrootEvent IsGiven) (add_user root_a username fullname groups password uid gid)
  unfolding add_user
  add_user-Emits username fullname groups password uid gid =
      search (step_rules, set_password-Emits, add_groups-Emits)

  pub remove_packages-Emits :
      (list_path command : Text)
      → Emits (ChrootEvent IsGiven) (remove_packages root_a list_path command)
  unfolding remove_packages
  remove_packages-Emits list_path command = search step_rules

  pub change_hostname-Emits :
      (hostname : Text) → Emits (ChrootEvent IsGiven) (change_hostname root_a hostname)
  unfolding change_hostname
  change_hostname-Emits hostname = search step_rules

  pub set_locale-Emits : (locale : Text) → Emits (ChrootEvent IsGiven) (set_locale root_a locale)
  unfolding set_locale
  set_locale-Emits locale = search step_rules depth 8

  pub swapon-Emits : (part : Text) → Emits (ChrootEvent IsGiven) (swapon root_a part)
  unfolding swapon
  swapon-Emits part = search step_rules

  pub set_keyboard_layout-Emits :
      (layout model variant : Text)
      → Emits (ChrootEvent IsGiven) (set_keyboard_layout root_a layout model variant)
  unfolding set_keyboard_layout
  set_keyboard_layout-Emits layout model variant = search step_rules

  read_config-Emits : (path : Text) → Emits (ChrootEvent IsGiven) (read_config path)
  unfolding read_config
  read_config-Emits path = search step_rules

  read_config_at-Emits :
      (path : Text) (found : Stat) → Emits (ChrootEvent IsGiven) (read_config_at path found)
  unfolding read_config_at
  read_config_at-Emits path absent = search step_rules
  read_config_at-Emits path present = read_config-Emits path
  read_config_at-Emits path (unreadable why) = read_config-Emits path

  pub get_grub_config-Emits : Emits (ChrootEvent IsGiven) (get_grub_config root_a)
  unfolding get_grub_config
  get_grub_config-Emits = search (step_rules, read_config_at-Emits)

  pub write_grub_config-Emits :
      (config : GrubConfig) → Emits (ChrootEvent IsGiven) (write_grub_config root_a config)
  unfolding write_grub_config
  write_grub_config-Emits config = search (step_rules, Emits-observe)

  pub add_grub_script-Emits :
      (path : Text) → Emits (ChrootEvent IsGiven) (add_grub_script root_a path)
  add_grub_script-Emits = adds_script writes_script

  remove_script_at-Emits :
      (name : Text) (found : Stat)
      → IsGiven name
      → Emits (ChrootEvent IsGiven) (remove_script_at (script_path root_a name) found)
  unfolding remove_script_at script_path text
  remove_script_at-Emits name absent h = search step_rules
  remove_script_at-Emits name present h = Emits-handling _ _ (Emits-remove_file _ (removes name h))
  remove_script_at-Emits name (unreadable why) h =
      Emits-handling _ _ (Emits-remove_file _ (removes name h))

  pub remove_grub_script-Emits :
      (name : Text) → IsGiven name → Emits (ChrootEvent IsGiven) (remove_grub_script root_a name)
  unfolding remove_grub_script
  remove_grub_script-Emits name h = search (step_rules, remove_script_at-Emits)

  -- The directories that are bound, each by its command
  AreBound : List Text → Type 0
  AreBound = All (λ dir.
      Among dir bound_directories
      × (bind_target_command root_a dir ≡ text "mount --bind " ++ dir ++ text " /mnt/a" ++ dir))

  required_AreBound : AreBound required_binds
  unfolding AreBound bind_target_command format join_path clean clean_parts clean_step cleaned split
      has_prefix join text list_beq
  required_AreBound = (
    (inl refl, refl),
    (
      (inr (inl refl), refl),
      (
        (inr (inr (inl refl)), refl),
        ((inr (inr (inr (inl refl))), refl), ((inr (inr (inr (inr (inl refl)))), refl), tt)),
      ),
    ),
  )

  bind_targets-Emits :
      (dirs : List Text) → AreBound dirs → Emits (ChrootEvent IsGiven) (bind_targets root_a dirs)
  unfolding bind_targets AreBound
  bind_targets-Emits [] h = search step_rules
  bind_targets-Emits (dir ∷ dirs) ((among, e), h) =
      Emits-bind _ _ (Emits-handling _ _ (Emits-run_command _ (binds_dir IsGiven dir among e)))
        (λ _. bind_targets-Emits dirs h)

  prepare_root-Emits : Emits (ChrootEvent IsGiven) (prepare_root root_a)
  unfolding prepare_root
  prepare_root-Emits = search (step_rules, bind_targets-Emits, required_AreBound)

  add_boot_entry-Emits :
      (entry : Text) (devices : List Text)
      → Emits (ChrootEvent IsGiven) (add_boot_entry entry devices)
  unfolding add_boot_entry
  add_boot_entry-Emits entry [] = search step_rules
  add_boot_entry-Emits entry (device ∷ devices) = search step_rules

  boot_entry_if-Emits :
      (needed : Bool) (entry : Text) (devices : List Text)
      → Emits (ChrootEvent IsGiven) (boot_entry_if needed entry devices)
  unfolding boot_entry_if
  boot_entry_if-Emits needed entry devices = search (step_rules, add_boot_entry-Emits)

  pub run_grub_install-Emits :
      (boot disk target entry : Text) (removable : Bool) (efi : List Text)
      → Emits (ChrootEvent IsGiven) (run_grub_install root_a boot disk target entry removable efi)
  unfolding run_grub_install
  run_grub_install-Emits boot disk target entry removable efi =
      search (step_rules, prepare_root-Emits, boot_entry_if-Emits)

  pub run_grub_mkconfig-Emits :
      (output : Text) → Emits (ChrootEvent IsGiven) (run_grub_mkconfig root_a output)
  unfolding run_grub_mkconfig
  run_grub_mkconfig-Emits output = search step_rules

pub ruleset call_rules = (
  run_at-Emits, set_timezone-Emits, add_user-Emits, remove_packages-Emits, change_hostname-Emits,
  set_locale-Emits, swapon-Emits, set_keyboard_layout-Emits, get_grub_config-Emits,
  write_grub_config-Emits, add_grub_script-Emits, remove_grub_script-Emits, run_grub_install-Emits,
  run_grub_mkconfig-Emits,
)
