-- ===== src/Util/Secrets.antt =====
-- The functions of core/util/util.go where environments of commands differ.
use albius.Base.{◌≡◌, Option, none, some, List, Text}
use albius.Machine.{Platform, Error, shell, Completed, Exit, success, exited, not_started}
use albius.Machine.Secrets.{Alike, Alike-bind, Alike-run_env, secret_rules}
use albius.Util.{
  run_result, run_command_env, run_command, output_or_fail, output_command, output_of,
}

module _ ⦃P : Platform⦄ where
  Alike-run_result :
      (done : Completed) (exit : Exit) → Alike (run_result done exit) (run_result done exit)
  unfolding run_result
  Alike-run_result done success = search secret_rules
  Alike-run_result done (exited n) = search secret_rules
  Alike-run_result done (not_started why) = search secret_rules

  pub Alike-run_command_env :
      (command : Text) (env env' : List Text)
      → ((s : P.State) → P.exec (shell env command) s ≡ P.exec (shell env' command) s)
      → Alike (run_command_env command env) (run_command_env command env')
  unfolding run_command_env
  Alike-run_command_env command env env' h =
      Alike-bind _ _ _ _ (Alike-run_env env env' command h)
        (λ done. Alike-run_result done done.exit)

  pub Alike-run_command : (command : Text) → Alike (run_command command) (run_command command)
  unfolding run_command run_command_env
  Alike-run_command command = search (secret_rules, Alike-run_result)

  pub Alike-output_command :
      (command : Text) → Alike (output_command command) (output_command command)
  unfolding output_command
  Alike-output_command command = search secret_rules

  Alike-output_or_fail :
      (out : Text) (e : Option Error) → Alike (output_or_fail out e) (output_or_fail out e)
  unfolding output_or_fail
  Alike-output_or_fail out none = search secret_rules
  Alike-output_or_fail out (some e) = search secret_rules

  pub Alike-output_of : (command : Text) → Alike (output_of command) (output_of command)
  unfolding output_of
  Alike-output_of command = search (secret_rules, Alike-output_command, Alike-output_or_fail)
