-- ===== src/Recipe/PostInstall.antt =====
-- `runPostInstallOperation` and `RunPostInstall` of core/recipe.go.
pub mod Calls
pub mod Safety
use albius.Base.{
  ℕ, Bool, List, [], ◌∷◌, Text, text, format, length, ltb, ℤ, minus_one, split_2, if◌then◌else◌,
}
use albius.Machine.{Platform, wrap, Go, pure, ◌>>=◌, ◌>>◌, handling, lift}
use albius.System.Settings.{
  run_at, set_timezone, add_user, remove_packages, change_hostname, set_locale, swapon,
  set_keyboard_layout,
}
use albius.System.Config.{GrubConfig, set_pair, get_grub_config, write_grub_config}
use albius.System.Grub.{add_grub_script, remove_grub_script, run_grub_install, run_grub_mkconfig}
use albius.Recipe.Types.{root_a}
use albius.Recipe.Values.{Json, as_string, string_at, int_at, bool_at, strings_at}
use albius.Recipe.Dispatch.{dispatch}

-- targetRoot
unfoldable pub target_root : Bool → Text
target_root chroot = if chroot then root_a else []

module _ ⦃P : Platform⦄ where
  pub record PostStep : Type 0 where
    pub chroot : Bool
    pub operation : Text
    pub params : List Json

  -- A loop over all parameters, each of which is a string
  unfoldable pub for_each : (Text → Go (Unit {0})) → List Json → Go (Unit {0})
  for_each body [] = pure tt
  for_each body (value ∷ args) = do s ← as_string value; body s; for_each body args

  unfoldable pub string_from : ℕ → List Json → Go Text
  string_from k args = if ltb k (length args) then string_at args k else pure []

  unfoldable pub int_from : ℕ → List Json → Go ℤ
  int_from k args = if ltb k (length args) then int_at args k else pure minus_one

  -- adduser
  unfoldable pub adduser_case : Text → List Json → Go (Unit {0})
  unfolding string_from int_from
  adduser_case root args = do
    username ← string_at args 0
    fullname ← string_at args 1
    groups ← strings_at args 2
    password ← string_from 3 args
    uid ← int_from 4 args
    gid ← int_from 5 args
    add_user root username fullname groups password uid gid

  -- timezone, hostname, locale and swapon, and the parameter of grub-mkconfig
  unfoldable pub with_string : (Text → Text → Go (Unit {0})) → Text → List Json → Go (Unit {0})
  with_string set root args = do s ← string_at args 0; set root s

  -- pkgremove
  unfoldable pub pkgremove_case : Text → List Json → Go (Unit {0})
  pkgremove_case root args = do
    list_path ← string_at args 0
    command ← string_at args 1
    remove_packages root list_path command

  -- keyboard
  unfoldable pub keyboard_case : Text → List Json → Go (Unit {0})
  keyboard_case root args = do
    layout ← string_at args 0
    model ← string_at args 1
    variant ← string_at args 2
    set_keyboard_layout root layout model variant

  -- grub-install
  unfoldable pub grub_install_case : Text → List Json → Go (Unit {0})
  unfolding string_from
  grub_install_case root args = do
    boot_directory ← string_at args 0
    install_device ← string_at args 1
    target ← string_at args 2
    entry_name ← string_at args 3
    removable ← bool_at args 4
    efi_device ← string_from 5 args
    run_grub_install root boot_directory install_device target entry_name removable
        (efi_device ∷ [])

  unfoldable pub set_pairs : List Json → GrubConfig → Go GrubConfig
  set_pairs [] config = pure config
  set_pairs (value ∷ args) config = do
    s ← as_string value
    config' ← lift (set_pair (split_2 b'=' s) config)
    set_pairs args config'

  -- grub-default-config
  unfoldable pub default_config_case : Text → List Json → Go (Unit {0})
  unfolding set_pairs
  default_config_case root args = do
    current ← get_grub_config root
    config ← set_pairs args current
    write_grub_config root config

  -- grub-add-script and grub-remove-script
  unfoldable pub add_script_case : Text → List Json → Go (Unit {0})
  unfolding for_each
  add_script_case root args = for_each (add_grub_script root) args

  unfoldable pub remove_script_case : Text → List Json → Go (Unit {0})
  unfolding for_each
  remove_script_case root args = for_each (remove_grub_script root) args

  -- grub-mkconfig
  unfoldable pub mkconfig_case : Text → List Json → Go (Unit {0})
  unfolding with_string
  mkconfig_case root args = with_string run_grub_mkconfig root args

  -- The cases of the switch
  unfoldable pub post_cases : Text → List Json → List (Text × Go (Unit {0}))
  unfolding adduser_case with_string for_each pkgremove_case keyboard_case grub_install_case
      default_config_case add_script_case remove_script_case mkconfig_case
  post_cases root args =
      (text "adduser", adduser_case root args)
      ∷ (text "timezone", with_string set_timezone root args)
      ∷ (text "shell", for_each (run_at root) args)
      ∷ (text "pkgremove", pkgremove_case root args)
      ∷ (text "hostname", with_string change_hostname root args)
      ∷ (text "locale", with_string set_locale root args)
      ∷ (text "swapon", with_string swapon root args)
      ∷ (text "keyboard", keyboard_case root args)
      ∷ (text "grub-install", grub_install_case root args)
      ∷ (text "grub-default-config", default_config_case root args)
      ∷ (text "grub-add-script", add_script_case root args)
      ∷ (text "grub-remove-script", remove_script_case root args)
      ∷ (text "grub-mkconfig", mkconfig_case root args)
      ∷ []

  -- runPostInstallOperation
  unfoldable pub run_post_operation : PostStep → Go (Unit {0})
  run_post_operation step =
      dispatch step.operation (post_cases (target_root step.chroot) step.params)

  -- RunPostInstall
  unfoldable pub run_post_install : List PostStep → Go (Unit {0})
  run_post_install [] = pure tt
  run_post_install (step ∷ steps) = do
    handling
        (wrap
          (format (text "failed to run post-install operation " ∷ step.operation ∷ text ": " ∷ [])))
        (run_post_operation step)
    run_post_install steps
