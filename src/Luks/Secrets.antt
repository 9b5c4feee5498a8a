-- ===== src/Luks/Secrets.antt =====
-- IsLuks, LuksOpen, LuksClose and LuksFormat (core/disk/luks/luks.go) where the
-- environments of commands, and so the passwords, differ.
use albius.Base.{◌≡◌, ◌==◌, refl, list_eq, nat_eq, [], Text}
use albius.Machine.{Platform, shell, Exit, success, exited, not_started}
use albius.Machine.Secrets.{Alike, Alike-handling, secret_rules}
use albius.Util.Secrets.{Alike-run_command_env, Alike-run_command}
use albius.Luks.{
  luks_password, is_luks_result, is_luks, luks_close, luks_open_command, luks_open, luks_format,
}

-- The command that opens a partition holds no password, only whether there is one.
luks_open_command_same :
    (path mapping p q : Text)
    → (p == []) ≡ (q == [])
    → luks_open_command path mapping p ≡ luks_open_command path mapping q
unfolding luks_open_command
luks_open_command_same path mapping p q e = rw e refl

module _ ⦃P : Platform⦄ (p q : Text)
    (same_answers : (command : Text) (s : P.State)
      → P.exec (shell (luks_password p) command) s
        ≡ P.exec (shell (luks_password q) command) s) where
  pub Alike-luks_format : (path : Text) → Alike (luks_format path p) (luks_format path q)
  unfolding luks_format
  Alike-luks_format path = Alike-handling _ _ _ (Alike-run_command_env _ _ _ (same_answers _))

  pub Alike-luks_open :
      (path mapping : Text)
      → (p == []) ≡ (q == [])
      → Alike (luks_open path mapping p) (luks_open path mapping q)
  unfolding luks_open
  Alike-luks_open path mapping e =
      rw (luks_open_command_same path mapping p q e)
        (Alike-handling _ _ _ (Alike-run_command_env _ _ _ (same_answers _)))

module _ ⦃P : Platform⦄ where
  Alike-is_luks_result :
      (path : Text) (exit : Exit) → Alike (is_luks_result path exit) (is_luks_result path exit)
  unfolding is_luks_result
  Alike-is_luks_result path success = search secret_rules
  Alike-is_luks_result path (exited n) = search secret_rules
  Alike-is_luks_result path (not_started why) = search secret_rules

  pub Alike-is_luks : (path : Text) → Alike (is_luks path) (is_luks path)
  unfolding is_luks
  Alike-is_luks path = search (secret_rules, Alike-is_luks_result)

  pub Alike-luks_close : (mapping : Text) → Alike (luks_close mapping) (luks_close mapping)
  unfolding luks_close
  Alike-luks_close mapping = search (secret_rules, Alike-run_command)
