-- ===== src/System/Settings.antt =====
-- core/system/post_install.go: users, packages, names and languages.
pub mod Users
use albius.Base.{
  List, [], ◌∷◌, ◌++◌, Text, text, format, join, replace_byte, contains, ℤ, minus_one, format_int,
  ◌==◌, list_eq, nat_eq, int_eq, if◌then◌else◌,
}
use albius.Machine.{Platform, message, wrap, Go, pure, ◌>>=◌, ◌>>◌, handling}
use albius.Machine.Files.{read_file, write_file}
use albius.Util.{run_command, run_in_chroot}

unfoldable pub timezone_command : Text → Text
timezone_command tz = format (text "ln -sf /usr/share/zoneinfo/" ∷ tz ∷ text " /etc/localtime" ∷ [])

-- The arguments for the ids. The one for the group takes the place of the one for the user.
unfoldable pub id_arguments : ℤ → ℤ → Text
id_arguments uid gid =
    let of_user : Text = if uid == minus_one then [] else text " --uid " ++ format_int uid in
    if gid == minus_one then of_user else text " --gid " ++ format_int gid

unfoldable pub useradd_command : Text → Text → Text → Text
useradd_command arguments username fullname = format (
    text "useradd --shell /bin/bash "
    ∷ arguments
    ∷ text " "
    ∷ username
    ∷ text " && usermod -c \""
    ∷ fullname
    ∷ text "\" "
    ∷ username
    ∷ [])

unfoldable pub passwd_command : Text → Text → Text
passwd_command username password =
    format (text "echo \"" ∷ username ∷ text ":" ∷ password ∷ text "\" | chpasswd" ∷ [])

unfoldable pub groups_command : List Text → Text → Text
groups_command groups username =
    format (text "usermod -a -G " ∷ join groups (text ",") ∷ text " " ∷ username ∷ [])

unfoldable pub remove_packages_command : Text → Text → Text
remove_packages_command command packages =
    format (command ∷ text " " ∷ replace_byte b'\n' (text " ") packages ∷ [])

unfoldable pub hosts_contents : Text → Text
hosts_contents hostname = format (
    text "127.0.0.1\tlocalhost\n::1\t\tlocalhost\n127.0.1.1\t"
    ∷ hostname
    ∷ text ".localdomain\t"
    ∷ hostname
    ∷ text "\n"
    ∷ [])

unfoldable pub supported_command : Text → Text → Text
supported_command locale root =
    format (text "grep " ∷ locale ∷ text " " ∷ root ∷ text "/usr/share/i18n/SUPPORTED" ∷ [])

-- The bytes that regexp.QuoteMeta puts a backslash before
abbrev pub special_bytes : Text
special_bytes = text "\\.+*?()|[]{}^$"

-- regexp.QuoteMeta
unfoldable pub quote_meta : Text → Text
quote_meta [] = []
quote_meta (c ∷ s) = (if contains special_bytes c then b'\\' ∷ c ∷ [] else c ∷ []) ++ quote_meta s

unfoldable pub locale_gen_command : Text → Text → Text
locale_gen_command locale root = format (
    text "sed -i 's/^\\# \\("
    ∷ quote_meta locale
    ∷ text "\\)/\\1/' "
    ∷ root
    ∷ text "/etc/locale.gen"
    ∷ [])

-- The variables of /etc/default/locale
abbrev pub locale_variables : List Text
locale_variables =
    text "LANG"
    ∷ text "LC_NUMERIC"
    ∷ text "LC_TIME"
    ∷ text "LC_MONETARY"
    ∷ text "LC_PAPER"
    ∷ text "LC_NAME"
    ∷ text "LC_ADDRESS"
    ∷ text "LC_TELEPHONE"
    ∷ text "LC_MEASUREMENT"
    ∷ text "LC_IDENTIFICATION"
    ∷ []

-- The template with the locale in the place of each `__lang__`
unfoldable pub locale_contents : Text → List Text → Text
locale_contents locale [] = []
locale_contents locale (variable ∷ variables) =
    variable ++ (text "=" ++ (locale ++ (b'\n' ∷ locale_contents locale variables)))

unfoldable pub swapon_command : Text → Text
swapon_command part = format (text "swapon " ∷ part ∷ [])

unfoldable pub keyboard_contents : Text → Text → Text → Text
keyboard_contents layout model variant = format (
    text "# KEYBOARD CONFIGURATION FILE\n# Consult the keyboard(5) manual page.\nXKBMODEL=\""
    ∷ model
    ∷ text "\"\nXKBLAYOUT=\""
    ∷ layout
    ∷ text "\"\nXKBVARIANT=\""
    ∷ variant
    ∷ text "\"\nBACKSPACE=\"guess\"\n"
    ∷ [])

module _ ⦃P : Platform⦄ where
  -- `if targetRoot != "" { RunInChroot } else { RunCommand }`
  unfoldable pub run_at : Text → Text → Go (Unit {0})
  run_at root command = if root == [] then run_command command else run_in_chroot root command

  -- SetTimezone
  unfoldable pub set_timezone : Text → Text → Go (Unit {0})
  set_timezone root tz =
      handling (wrap (text "failed to set timezone: "))
        (do write_file (root ++ text "/etc/timezone") tz; run_at root (timezone_command tz))

  unfoldable pub set_password : Text → Text → Text → Go (Unit {0})
  set_password root username password =
      if password == []
      then pure tt
      else handling (wrap (text "failed to set password: "))
          (run_at root (passwd_command username password))

  unfoldable pub add_groups : Text → Text → List Text → Go (Unit {0})
  add_groups root username groups =
      if groups == []
      then pure tt
      else handling (wrap (text "failed to add groups to user: "))
          (run_at root (groups_command groups username))

  -- AddUser
  unfoldable pub add_user : Text → Text → Text → List Text → Text → ℤ → ℤ → Go (Unit {0})
  add_user root username fullname groups password uid gid = do
    handling (wrap (text "failed to create user: "))
        (run_at root (useradd_command (id_arguments uid gid) username fullname))
    set_password root username password
    add_groups root username groups

  -- RemovePackages
  unfoldable pub remove_packages : Text → Text → Text → Go (Unit {0})
  remove_packages root list_path command = do
    packages ← handling (wrap (text "failed to read package removal file: ")) (read_file list_path)
    handling (wrap (text "failed to remove packages: "))
        (run_at root (remove_packages_command command packages))

  -- ChangeHostname
  unfoldable pub change_hostname : Text → Text → Go (Unit {0})
  change_hostname root hostname = do
    handling (wrap (text "failed to change hostname: "))
        (write_file (root ++ text "/etc/hostname") (hostname ++ (b'\n' ∷ [])))
    handling (wrap (text "failed to change hosts file: "))
        (write_file (root ++ text "/etc/hosts") (hosts_contents hostname))

  -- SetLocale. What grep answers is not part of the error.
  unfoldable pub set_locale : Text → Text → Go (Unit {0})
  set_locale root locale = do
    handling (λ e. message (format (text "locale " ∷ locale ∷ text " is invalid" ∷ [])))
        (run_command (supported_command locale root))
    handling (wrap (text "failed to set locale: ")) (do
      run_command (locale_gen_command locale root)
      run_at root (text "locale-gen")
      write_file (root ++ text "/etc/default/locale") (locale_contents locale locale_variables))

  -- Swapon
  unfoldable pub swapon : Text → Text → Go (Unit {0})
  swapon root part = run_at root (swapon_command part)

  -- SetKeyboardLayout
  unfoldable pub set_keyboard_layout : Text → Text → Text → Text → Go (Unit {0})
  set_keyboard_layout root layout model variant =
      handling (wrap (text "failed to set keyboard layout: ")) (do
        write_file (root ++ text "/etc/default/keyboard") (keyboard_contents layout model variant)
        run_at root (text "setupcon --save-only"))
