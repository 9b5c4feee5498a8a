-- ===== src/Luks/Steady.antt =====
-- `IsLuks` (core/disk/luks/luks.go) where cryptsetup answers the same each time.
use albius.Base.{◌≡◌, [], Text}
use albius.Machine.{Platform, shell, Exit, success, exited, not_started}
use albius.Machine.Steady.{Steady, steady_rules}
use albius.Luks.{is_luks_command, is_luks_result, is_luks}

module _ ⦃P : Platform⦄ where
  Steady-is_luks_result : (path : Text) (exit : Exit) → Steady (is_luks_result path exit)
  unfolding is_luks_result
  Steady-is_luks_result path success = search steady_rules
  Steady-is_luks_result path (exited code) = search steady_rules
  Steady-is_luks_result path (not_started why) = search steady_rules

  pub Steady-is_luks :
      (path : Text)
      → ((s s' : P.State)
          → (P.exec (shell [] (is_luks_command path)) s).0
            ≡ (P.exec (shell [] (is_luks_command path)) s').0)
      → Steady (is_luks path)
  unfolding is_luks
  Steady-is_luks path h = search (steady_rules, Steady-is_luks_result)
