-- ===== src/Tests/Programs.antt =====
-- Whole runs: recipes, steps and images

use albius.Disk.Types.{Partition, partition_at}
use albius.Disk.Label.{wait_for_partition}
use albius.Disk.Label.Waiting.{IsThere, wait_for_partition-IsThere}
use albius.Disk.Images.{oci_setup}
use albius.Disk.Images.Safety.{ImageEvent, oci_setup-Emits}
use albius.System.Settings.{add_user}
use albius.System.Settings.Users.{add_user_drops}
use albius.System.Config.Panics.{HasBroken, parse_lines-HasBroken}
use albius.Machine.{panic, index_out_of_range, removed}
use albius.Base.{pos, minus_one}
use albius.Base.{
  ◌≡◌, join_path, ◌↔◌, ◌++◌, refl, true, none, [], ◌∷◌, text, trim_space, format, list_beq, arith,
}
use albius.Machine.{
  World, wrap, message, ok, err, ran, shell, pure, fail, handling, ◌>>=◌, perform, run_process,
}
use albius.Machine.Emits.{Emits}
use albius.Machine.Bounds.{Bounded}
use albius.Machine.Sequence.{Chain}
use albius.Util.{output_command}
use albius.Disk.Table.{print_command, locate_disk, wait_for_disk}
use albius.Disk.Table.Waiting.{wait_for_disk-Bounded}
use albius.Disk.Images.{Images, got, refused, pull_four}
use albius.Disk.Images.Pulling.{IsPulled, pull_four-IsPulled}
use albius.System.Grub.{add_grub_script, remove_grub_script}
use albius.System.Grub.Scripts.{
  ScriptEvent, add_grub_script-ScriptEvent, remove_grub_script-escapes,
}
use albius.System.Config.{parse_lines}
use albius.Recipe.Types.{root_a}
use albius.Recipe.Dispatch.{dispatch}
use albius.Recipe.Setup.{SetupStep, run_setup_operation, run_setup}
use albius.Recipe.PostInstall.{PostStep, post_cases, run_post_operation, run_post_install}
use albius.Recipe.Values
use albius.Recipe.Program.{Recipe, run_recipe}
use albius.Recipe.Program.Phases.{plan, run_recipe-Chain}
use albius.Recipe.Program.Failures.{
  StopsAt, setup_context, post_context, run_setup-StopsAt, run_post_install-StopsAt,
}
use albius.Tests.Scripted.{silent}

abbrev start : World ⦃P = silent⦄
start = record { state = tt; log = [] }

abbrev unknown : PostStep ⦃P = silent⦄
unknown = record { chroot = true; operation = text "reboot"; params = [] }

abbrev remove_third : SetupStep ⦃P = silent⦄
remove_third = record { disk = text "/dev/sda"; operation = text "rm"; params = [] }

abbrev after_print : World ⦃P = silent⦄
after_print = record { state = tt; log = ran (shell [] (print_command (text "/dev/sda"))) ∷ [] }

-- A library that has an image to pull, and no more
abbrev images : Images ⦃P = silent⦄
images = record {
  new_prometheus = λ storage driver s. (none, s);
  pull_image =
      λ source name s. (got (record { config_digest = text "c"; manifest_digest = text "m" }), s);
  get_image_by_id = λ id s. (refused (text "no image"), s);
  mount_image = λ layer s. (refused (text "no image"), s);
  unmount_image = λ layer s. (none, s);
}

abbrev recipe : Recipe ⦃P = silent⦄
recipe = record {
  setup = remove_third ∷ [];
  mountpoints = [];
  installation = record {
    method = text "oci";
    source = text "image";
    initramfs_pre = [];
    initramfs_post = [];
  };
  post_installation = unknown ∷ [];
}

run_recipe-Chain_example :
    (run_recipe ⦃P = silent⦄ ⦃I = images⦄ recipe start ≡ (ok tt, start))
    ↔ Chain ⦃P = silent⦄ (plan ⦃P = silent⦄ ⦃I = images⦄ recipe) start start
run_recipe-Chain_example = run_recipe-Chain ⦃P = silent⦄ ⦃I = images⦄ recipe start start

stops : run_post_install ⦃P = silent⦄ (unknown ∷ []) start ≡ (
  err (wrap (post_context ⦃P = silent⦄ unknown) (message (text "unrecognized operation reboot"))),
  start,
)
unfolding run_post_install run_post_operation post_cases dispatch handling ◌>>=◌ pure fail text
    format list_beq
stops = refl

run_post_install-StopsAt_example :
    StopsAt ⦃P = silent⦄
      (run_post_operation ⦃P = silent⦄)
      (post_context ⦃P = silent⦄)
      (unknown ∷ [])
      (wrap (post_context ⦃P = silent⦄ unknown) (message (text "unrecognized operation reboot")))
      start
      start
run_post_install-StopsAt_example =
    run_post_install-StopsAt ⦃P = silent⦄ (unknown ∷ []) start start _ stops

setup_stops : run_setup ⦃P = silent⦄ (remove_third ∷ []) start ≡ (
  err (
      wrap
        (setup_context ⦃P = silent⦄ remove_third)
        (wrap (text "failed to list disk: ") (message (text "unknown")))),
  after_print,
)
unfolding run_setup run_setup_operation locate_disk output_command run_process perform handling
    ◌>>=◌ pure fail text format list_beq trim_space
setup_stops = refl

run_setup-StopsAt_example :
    StopsAt ⦃P = silent⦄
      (run_setup_operation ⦃P = silent⦄)
      (setup_context ⦃P = silent⦄)
      (remove_third ∷ [])
      (wrap
        (setup_context ⦃P = silent⦄ remove_third)
        (wrap (text "failed to list disk: ") (message (text "unknown"))))
      start
      after_print
run_setup-StopsAt_example =
    run_setup-StopsAt ⦃P = silent⦄ (remove_third ∷ []) start after_print _ setup_stops

add_grub_script-ScriptEvent_example :
    Emits ⦃P = silent⦄ ScriptEvent (add_grub_script ⦃P = silent⦄ root_a (text "/tmp/05_vanilla"))
add_grub_script-ScriptEvent_example =
    add_grub_script-ScriptEvent ⦃P = silent⦄ (text "/tmp/05_vanilla")

remove_grub_script-escapes_example :
    (remove_grub_script ⦃P = silent⦄ root_a (text "../../../../" ++ (b'x' ∷ [])) start).1.log
    ≡ start.log ++ (removed (b'/' ∷ b'x' ∷ []) ∷ [])
unfolding text
remove_grub_script-escapes_example =
    remove_grub_script-escapes ⦃P = silent⦄ (b'x' ∷ []) start ((λ e. absurd (omega arith)), tt)
      (λ e. cc e) (λ e. cc e) (λ e. cc e) refl

wait_for_disk-Bounded_example :
    Bounded ⦃P = silent⦄ 600 (wait_for_disk ⦃P = silent⦄ (text "/dev/sda"))
wait_for_disk-Bounded_example = wait_for_disk-Bounded ⦃P = silent⦄ (text "/dev/sda")

pull_four-IsPulled_example :
    IsPulled ⦃P = silent⦄ ⦃I = images⦄ 2
      (text "a")
      (text "b")
      start
      (pull_four ⦃P = silent⦄ ⦃I = images⦄ (text "a") (text "b"))
pull_four-IsPulled_example =
    pull_four-IsPulled ⦃P = silent⦄ ⦃I = images⦄ 1 (text "a") (text "b") _ start (omega arith) refl

abbrev third : Partition
third = partition_at (text "/dev/sda3") []

wait_for_partition-IsThere_example : wait_for_partition ⦃P = silent⦄ third start ≡ (ok tt, start)
wait_for_partition-IsThere_example =
    wait_for_partition-IsThere ⦃P = silent⦄ third 0 start start start (omega arith) refl
      (IsThere.unformatted tt refl refl)

parse_lines-HasBroken_example :
    (parse_lines (text "export A" ∷ []) [] ≡ panic index_out_of_range)
    ↔ HasBroken (text "export A" ∷ [])
parse_lines-HasBroken_example = parse_lines-HasBroken (text "export A" ∷ []) []

add_user_drops_example :
    add_user ⦃P = silent⦄ [] (text "user") [] [] [] (pos 1000) (pos 100)
    ≡ add_user ⦃P = silent⦄ [] (text "user") [] [] [] minus_one (pos 100)
add_user_drops_example =
    add_user_drops ⦃P = silent⦄ [] (text "user") [] [] [] (pos 1000) minus_one (pos 100) (λ e. cc e)

oci_setup-Emits_example :
    Emits ⦃P = silent⦄
      (ImageEvent ⦃P = silent⦄ ⦃I = images⦄
        (join_path (text "/s" ∷ text "tmp" ∷ []))
        (text "/mnt/a"))
      (oci_setup ⦃P = silent⦄ ⦃I = images⦄ (text "image") (text "/s") (text "/mnt/a") true)
oci_setup-Emits_example =
    oci_setup-Emits ⦃P = silent⦄ ⦃I = images⦄ (text "image") (text "/s") (text "/mnt/a") true
