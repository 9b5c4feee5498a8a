-- ===== src/Util/Steady.antt =====
-- `OutputCommand` (core/util/util.go) of a command that answers the same each time.
use albius.Base.{◌≡◌, [], Option, none, some, Text}
use albius.Machine.{Platform, Error, shell}
use albius.Machine.Steady.{Steady, steady_rules}
use albius.Util.{output_or_fail, output_command, output_of}

module _ ⦃P : Platform⦄ where
  Steady-output_or_fail : (out : Text) (e : Option Error) → Steady (output_or_fail out e)
  unfolding output_or_fail
  Steady-output_or_fail out none = search steady_rules
  Steady-output_or_fail out (some e) = search steady_rules

  Steady-output_command :
      (command : Text)
      → ((s s' : P.State) → (P.exec (shell [] command) s).0 ≡ (P.exec (shell [] command) s').0)
      → Steady (output_command command)
  unfolding output_command
  Steady-output_command command h = search steady_rules

  pub Steady-output_of :
      (command : Text)
      → ((s s' : P.State) → (P.exec (shell [] command) s).0 ≡ (P.exec (shell [] command) s').0)
      → Steady (output_of command)
  unfolding output_of
  Steady-output_of command h = search (steady_rules, Steady-output_command, Steady-output_or_fail)
