-- ===== src/Util/Bounds.antt =====
-- How much `OutputCommand` (core/util/util.go) does.
use albius.Base.{Option, none, some, Text}
use albius.Machine.{Platform, Error, run_process}
use albius.Machine.Bounds.{Bounded, Bounded-pure, Bounded-fail, Bounded-perform, Bounded-bind}
use albius.Util.{output_or_fail, output_command, output_of}

module _ ⦃P : Platform⦄ where
  Bounded-output_or_fail : (out : Text) (e : Option Error) → Bounded 0 (output_or_fail out e)
  unfolding output_or_fail
  Bounded-output_or_fail out none = Bounded-pure out
  Bounded-output_or_fail out (some e) = Bounded-fail e

  Bounded-output_command : (command : Text) → Bounded 1 (output_command command)
  unfolding output_command run_process
  Bounded-output_command command = Bounded-bind _ _ (Bounded-perform _ _) (λ done. Bounded-pure _)

  pub Bounded-output_of : (command : Text) → Bounded 1 (output_of command)
  unfolding output_of
  Bounded-output_of command =
      Bounded-bind (output_command command) _ (Bounded-output_command command)
        (λ o. Bounded-output_or_fail o.out o.error)
