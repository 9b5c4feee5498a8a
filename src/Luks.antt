-- ===== src/Luks.antt =====
-- core/disk/luks/luks.go. Of a partition these functions use the path alone.
pub mod Emits
pub mod Secrets
pub mod Steady
use albius.Base.{
  Bool, true, false, List, [], ◌∷◌, ◌++◌, Text, text, format, join, contains, ℤ, pos, ◌==◌, list_eq,
  nat_eq, int_eq, if◌then◌else◌,
}
use albius.Machine.{
  Platform, shell, Exit, success, exited, not_started, Stat, present, absent, unreadable, Error,
  message, wrap, Go, pure, fail, ◌>>=◌, ◌>>◌, handling, run_process, stat_path, create_path,
  append_path, fail_on,
}
use albius.Util.{run_command, run_command_env, output_of}

-- The address of the mapping of an opened partition.
unfoldable pub mapper_path : Text → Text
mapper_path uuid = format (text "/dev/mapper/luks-" ∷ uuid ∷ [])

unfoldable pub luks_name : Text → Text
luks_name uuid = format (text "luks-" ∷ uuid ∷ [])

unfoldable pub luks_password : Text → List Text
luks_password password = (text "LUKSPASS=" ++ password) ∷ []

unfoldable pub is_luks_command : Text → Text
is_luks_command path = format (text "cryptsetup isLuks " ∷ path ∷ [])

unfoldable pub luks_open_command : Text → Text → Text → Text
luks_open_command path mapping password = format (
    (if password == [] then [] else text "printf \"%s\" \"$LUKSPASS\" | ")
    ∷ (text "cryptsetup open " ∷ (path ∷ (text " " ∷ (mapping ∷ [])))))

unfoldable pub luks_close_command : Text → Text
luks_close_command mapping = format (text "cryptsetup close " ∷ mapping ∷ [])

unfoldable pub luks_format_command : Text → Text
luks_format_command path =
    format (text "printf \"%s\" \"$LUKSPASS\" | cryptsetup -q luksFormat " ∷ path ∷ [])

unfoldable pub not_checked : Text → Text
not_checked path = format (text "failed to check if " ∷ path ∷ text " is LUKS-encrypted: " ∷ [])

module _ ⦃P : Platform⦄ where
  is_luks_result : Text → Exit → Go Bool
  is_luks_result path success = pure true
  is_luks_result path (exited code) =
      if code == pos 1 then pure false else fail (wrap (not_checked path) (message []))
  is_luks_result path (not_started why) = fail (wrap (not_checked path) (message why))

  -- IsLuks. `cmd.Run` fills no `ExitError.Stderr`.
  unfoldable pub is_luks : Text → Go Bool
  unfolding is_luks_result
  is_luks path = do
    done ← run_process (shell [] (is_luks_command path))
    is_luks_result path done.exit

  -- LuksOpen
  unfoldable pub luks_open : Text → Text → Text → Go (Unit {0})
  luks_open path mapping password =
      handling (wrap (text "failed to open LUKS-encrypted partition: "))
        (run_command_env (luks_open_command path mapping password) (luks_password password))

  luks_try_open_at : Text → Text → Text → Stat → Go (Unit {0})
  luks_try_open_at path mapping password present = pure tt
  luks_try_open_at path mapping password absent = luks_open path mapping password
  luks_try_open_at path mapping password (unreadable why) =
      fail (wrap (text "failed to try-open LUKS-encrypted partition: ") (message why))

  -- LuksTryOpen
  unfoldable pub luks_try_open : Text → Text → Text → Go (Unit {0})
  unfolding luks_try_open_at
  luks_try_open path mapping password = do
    found ← stat_path (format (text "/dev/mapper/" ∷ mapping ∷ []))
    luks_try_open_at path mapping password found

  -- LuksClose
  unfoldable pub luks_close : Text → Go (Unit {0})
  luks_close mapping =
      handling (wrap (text "failed to close LUKS-encrypted partition: "))
        (run_command (luks_close_command mapping))

  -- LuksFormat
  unfoldable pub luks_format : Text → Text → Go (Unit {0})
  luks_format path password =
      handling (wrap (text "failed to create LUKS-encrypted partition: "))
        (run_command_env (luks_format_command path) (luks_password password))

  -- The lines of a table of space-separated entries.
  unfoldable pub write_entries : Text → List (List Text) → Go (Unit {0})
  write_entries path [] = pure tt
  write_entries path (entry ∷ entries) = do
    written ← append_path path (join entry (text " ") ++ (b'\n' ∷ []))
    fail_on written
    write_entries path entries

  -- GenCrypttab
  unfoldable pub gen_crypttab : Text → List (List Text) → Go (Unit {0})
  gen_crypttab root entries = do
    let path = format (root ∷ text "/etc/crypttab" ∷ [])
    made ← create_path path
    fail_on made
    write_entries path entries

  -- GetLUKSFilesystemByPath
  unfoldable pub get_luks_filesystem_by_path : Text → Go Text
  get_luks_filesystem_by_path path =
      handling (wrap (text "failed to get encrypted partition FSTYPE: ")) (
        output_of
          (format (text "lsblk -n -o FSTYPE " ∷ path ∷ text " | sed '/crypto_LUKS/d'" ∷ [])))
