-- ===== src/Util.antt =====
-- core/util/util.go: child processes, and the split of a partition's path into disk and number.
pub mod Paths
pub mod Bounds
pub mod Emits
pub mod Runs
pub mod Secrets
pub mod Steady
use albius.Base.{
  ℕ, Bool, true, false, ◌&&◌, ◌||◌, Option, none, some, List, [], ◌∷◌, ◌++◌, Text, text, has_prefix,
  drop_prefix, trim_space, is_digit, leb, reverse, if◌then◌else◌,
}
use albius.Machine.{
  Platform, Process, shell, chroot, Completed, Exit, success, exited, not_started, Error, message,
  Go, pure, fail, ◌>>=◌, run_process,
}

module _ ⦃P : Platform⦄ where
  -- The error text is what the command wrote to its error stream.
  run_result : Completed → Exit → Go (Unit {0})
  run_result done success = pure tt
  run_result done (exited n) = fail (message done.stderr)
  run_result done (not_started why) = fail (message [])

  -- RunCommand
  unfoldable pub run_command_env : Text → List Text → Go (Unit {0})
  unfolding run_result
  run_command_env command env = do done ← run_process (shell env command); run_result done done.exit

  unfoldable pub run_command : Text → Go (Unit {0})
  unfolding run_command_env
  run_command command = run_command_env command []

  -- What `OutputCommand` returns: the trimmed output, also beside an error.
  pub record Output : Type 0 where
    pub out : Text
    pub error : Option Error

  output_result : Completed → Exit → Output
  output_result done success = record { out = trim_space done.stdout; error = none }
  output_result done (exited n) = record {
    out = trim_space done.stdout;
    error = some (message done.stderr);
  }
  output_result done (not_started why) = record {
    out = trim_space done.stdout;
    error = some (message why);
  }

  -- OutputCommand
  unfoldable pub output_command : Text → Go Output
  unfolding output_result
  output_command command = do
    done ← run_process (shell [] command)
    pure (output_result done done.exit)

  output_or_fail : Text → Option Error → Go Text
  output_or_fail out none = pure out
  output_or_fail out (some e) = fail e

  -- A call of `OutputCommand` whose output is dropped when there is an error.
  unfoldable pub output_of : Text → Go Text
  unfolding output_command output_or_fail
  output_of command = do o ← output_command command; output_or_fail o.out o.error

  -- `cmd.Run` fills no `ExitError.Stderr`, so a failed command has an error with an empty text.
  chroot_result : Exit → Go (Unit {0})
  chroot_result success = pure tt
  chroot_result (exited n) = fail (message [])
  chroot_result (not_started why) = fail (message why)

  -- RunInChroot
  unfoldable pub run_in_chroot : Text → Text → Go (Unit {0})
  unfolding chroot_result
  run_in_chroot root command = do done ← run_process (chroot root command); chroot_result done.exit

abbrev pub is_lower : ℕ → Bool
is_lower c = leb b'a' c && leb c b'z'

abbrev pub is_alpha : ℕ → Bool
is_alpha c = is_lower c || (leb b'A' c && leb c b'Z')

-- The longest beginning of a text whose bytes pass a test, and what is behind it.
unfoldable pub span : (ℕ → Bool) → Text → Text × Text
span test [] = ([], [])
span test (c ∷ s) =
    let (front, rest) = span test s in if test c then (c ∷ front, rest) else ([], c ∷ s)

-- What `([0-9]+[a-z][0-9]+)?` matches at the beginning of a text: nothing if the group does not.
match_number : Text → ℕ → Text × Text → Text
match_number first c ([], rest) = []
match_number first c (d ∷ second, rest) = first ++ (c ∷ d ∷ second)

match_letter : Text × Text → Text
match_letter ([], rest) = []
match_letter (d ∷ first, []) = []
match_letter (d ∷ first, c ∷ rest) =
    if is_lower c then match_number (d ∷ first) c (span is_digit rest) else []

unfoldable pub match_group : Text → Text
unfolding match_number match_letter
match_group s = match_letter (span is_digit s)

match_name : Text × Text → Text
match_name ([], rest) = []
match_name (c ∷ letters, rest) = text "/dev/" ++ ((c ∷ letters) ++ match_group rest)

-- What `^/dev/[a-zA-Z]+([0-9]+[a-z][0-9]+)?` finds.
unfoldable pub find_disk : Text → Text
unfolding match_name
find_disk path =
    if has_prefix path (text "/dev/")
    then match_name (span is_alpha (drop_prefix path (text "/dev/")))
    else []

-- What `[0-9]+$` finds: the digits at the end of the text.
unfoldable pub find_number : Text → Text
find_number path = reverse (span is_digit (reverse path)).0

-- SeparateDiskPart
unfoldable pub separate_disk_part : Text → Text × Text
unfolding find_disk find_number has_prefix drop_prefix span match_group
separate_disk_part path = (find_disk path, find_number path)
