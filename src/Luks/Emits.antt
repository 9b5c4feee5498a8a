-- ===== src/Luks/Emits.antt =====
-- The events of core/disk/luks/luks.go.
use albius.Base.{[], Text}
use albius.Machine.{
  Platform, Event, ran, shell, Exit, success, exited, not_started, Stat, present, absent,
  unreadable,
}
use albius.Machine.Emits.{Emits, emit_rules}
use albius.Util.Emits.{util_rules}
use albius.Luks.{
  is_luks_command, luks_open_command, luks_password, is_luks_result, is_luks, luks_open,
  luks_try_open_at, luks_try_open, luks_close_command, luks_close,
}

module _ ⦃P : Platform⦄ {E : Event → Type 0} where
  is_luks_result-Emits : (path : Text) (exit : Exit) → Emits E (is_luks_result path exit)
  unfolding is_luks_result
  is_luks_result-Emits path success = search emit_rules
  is_luks_result-Emits path (exited code) = search emit_rules
  is_luks_result-Emits path (not_started why) = search emit_rules

  pub is_luks-Emits :
      (path : Text) → E (ran (shell [] (is_luks_command path))) → Emits E (is_luks path)
  unfolding is_luks
  is_luks-Emits path h = search (emit_rules, is_luks_result-Emits)

  pub luks_open-Emits :
      (path mapping password : Text)
      → E (ran (shell (luks_password password) (luks_open_command path mapping password)))
      → Emits E (luks_open path mapping password)
  unfolding luks_open
  luks_open-Emits path mapping password h = search (emit_rules, util_rules)

  luks_try_open_at-Emits :
      (path mapping password : Text) (found : Stat)
      → E (ran (shell (luks_password password) (luks_open_command path mapping password)))
      → Emits E (luks_try_open_at path mapping password found)
  unfolding luks_try_open_at
  luks_try_open_at-Emits path mapping password present h = search emit_rules
  luks_try_open_at-Emits path mapping password absent h = luks_open-Emits path mapping password h
  luks_try_open_at-Emits path mapping password (unreadable why) h = search emit_rules

  pub luks_try_open-Emits :
      (path mapping password : Text)
      → E (ran (shell (luks_password password) (luks_open_command path mapping password)))
      → Emits E (luks_try_open path mapping password)
  unfolding luks_try_open
  luks_try_open-Emits path mapping password h = search (emit_rules, luks_try_open_at-Emits)

  pub luks_close-Emits :
      (mapping : Text)
      → E (ran (shell [] (luks_close_command mapping)))
      → Emits E (luks_close mapping)
  unfolding luks_close
  luks_close-Emits mapping h = search (emit_rules, util_rules)
