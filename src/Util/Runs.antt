-- ===== src/Util/Runs.antt =====
-- `RunCommand` and `RunInChroot` (core/util/util.go) run one process.
use albius.Base.{inl, inr, refl, List, [], ◌∷◌, Text}
use albius.Machine.{
  Platform, shell, chroot, ran, Completed, success, exited, not_started, pure, fail,
}
use albius.Machine.Runs.{Runs, Answers, Runs-process}
use albius.Util.{run_result, run_command_env, run_command, chroot_result, run_in_chroot}

module _ ⦃P : Platform⦄ where
  run_result-Answers : (done : Completed) → Answers (run_result done)
  unfolding run_result pure fail
  run_result-Answers done success w = inl (refl, refl)
  run_result-Answers done (exited n) w = inr (_, (λ h. cc), refl)
  run_result-Answers done (not_started why) w = inr (_, (λ h. cc), refl)

  chroot_result-Answers : Answers chroot_result
  unfolding chroot_result pure fail
  chroot_result-Answers success w = inl (refl, refl)
  chroot_result-Answers (exited n) w = inr (_, (λ h. cc), refl)
  chroot_result-Answers (not_started why) w = inr (_, (λ h. cc), refl)

  pub Runs-run_command_env :
      (command : Text) (env : List Text)
      → Runs (run_command_env command env) (ran (shell env command) ∷ [])
  unfolding run_command_env
  Runs-run_command_env command env = Runs-process (shell env command) run_result run_result-Answers

  pub Runs-run_command : (command : Text) → Runs (run_command command) (ran (shell [] command) ∷ [])
  unfolding run_command
  Runs-run_command command = Runs-run_command_env command []

  pub Runs-run_in_chroot :
      (root command : Text) → Runs (run_in_chroot root command) (ran (chroot root command) ∷ [])
  unfolding run_in_chroot
  Runs-run_in_chroot root command =
      Runs-process (chroot root command) (λ done. chroot_result) (λ done. chroot_result-Answers)
