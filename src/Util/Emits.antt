-- ===== src/Util/Emits.antt =====
-- The events of `RunCommand`, `OutputCommand` and `RunInChroot` (core/util/util.go).
use albius.Base.{Option, none, some, List, [], Text}
use albius.Machine.{
  Platform, Event, ran, shell, chroot, Completed, Exit, success, exited, not_started, Error,
}
use albius.Machine.Emits.{Emits, emit_rules}
use albius.Util.{
  run_result, run_command_env, run_command, output_or_fail, output_command, output_of,
  chroot_result, run_in_chroot,
}

module _ ⦃P : Platform⦄ {E : Event → Type 0} where
  Emits-run_result : (done : Completed) (exit : Exit) → Emits E (run_result done exit)
  unfolding run_result
  Emits-run_result done success = search emit_rules
  Emits-run_result done (exited n) = search emit_rules
  Emits-run_result done (not_started why) = search emit_rules

  pub Emits-run_command_env :
      (command : Text) (env : List Text)
      → E (ran (shell env command))
      → Emits E (run_command_env command env)
  unfolding run_command_env
  Emits-run_command_env command env h = search (emit_rules, Emits-run_result)

  pub Emits-run_command :
      (command : Text) → E (ran (shell [] command)) → Emits E (run_command command)
  unfolding run_command
  Emits-run_command command h = Emits-run_command_env command [] h

  pub Emits-output_command :
      (command : Text) → E (ran (shell [] command)) → Emits E (output_command command)
  unfolding output_command
  Emits-output_command command h = search emit_rules

  Emits-output_or_fail : (out : Text) (e : Option Error) → Emits E (output_or_fail out e)
  unfolding output_or_fail
  Emits-output_or_fail out none = search emit_rules
  Emits-output_or_fail out (some e) = search emit_rules

  pub Emits-output_of : (command : Text) → E (ran (shell [] command)) → Emits E (output_of command)
  unfolding output_of
  Emits-output_of command h = search (emit_rules, Emits-output_command, Emits-output_or_fail)

  Emits-chroot_result : (exit : Exit) → Emits E (chroot_result exit)
  unfolding chroot_result
  Emits-chroot_result success = search emit_rules
  Emits-chroot_result (exited n) = search emit_rules
  Emits-chroot_result (not_started why) = search emit_rules

  pub Emits-run_in_chroot :
      (root command : Text) → E (ran (chroot root command)) → Emits E (run_in_chroot root command)
  unfolding run_in_chroot
  Emits-run_in_chroot root command h = search (emit_rules, Emits-chroot_result)

pub ruleset util_rules = (
  Emits-run_command_env, Emits-run_command, Emits-output_command, Emits-output_of,
  Emits-run_in_chroot,
)
