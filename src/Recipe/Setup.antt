-- ===== src/Recipe/Setup.antt =====
-- `runSetupOperation` and `RunSetup` of core/recipe.go.
pub mod Partitions
pub mod Secrets
pub mod Volumes
use albius.Base.{List, [], ◌∷◌, Text, text, format}
use albius.Machine.{Platform, wrap, Go, pure, ◌>>=◌, ◌>>◌, handling, attempt}
use albius.Disk.Types.{Disk}
use albius.Disk.Table.{locate_disk, wait_for_disk}
use albius.Recipe.Values.{Json}
use albius.Recipe.Dispatch.{dispatch}

module _ ⦃P : Platform⦄ where
  pub record SetupStep : Type 0 where
    pub disk : Text
    pub operation : Text
    pub params : List Json

  -- The cases of the switch
  unfoldable pub setup_cases : Disk → List Json → List (Text × Go (Unit {0}))
  setup_cases target args =
      (text "label", Partitions.label target args)
      ∷ (text "mkpart", Partitions.mkpart target args)
      ∷ (text "rm", Partitions.rm target args)
      ∷ (text "resizepart", Partitions.resizepart target args)
      ∷ (text "namepart", Partitions.namepart target args)
      ∷ (text "setlabel", Partitions.setlabel target args)
      ∷ (text "setflag", Partitions.setflag target args)
      ∷ (text "format", Partitions.format_existing target args)
      ∷ (text "luks-format", Partitions.luks_format_existing target args)
      ∷ (text "pvcreate", Volumes.pvcreate args)
      ∷ (text "pvresize", Volumes.pvresize args)
      ∷ (text "pvremove", Volumes.pvremove args)
      ∷ (text "vgcreate", Volumes.vgcreate args)
      ∷ (text "vgrename", Volumes.vgrename args)
      ∷ (text "vgextend", Volumes.vgextend args)
      ∷ (text "vgreduce", Volumes.vgreduce args)
      ∷ (text "vgremove", Volumes.vgremove args)
      ∷ (text "lvcreate", Volumes.lvcreate args)
      ∷ (text "lvrename", Volumes.lvrename args)
      ∷ (text "lvremove", Volumes.lvremove args)
      ∷ (text "make-thin-pool", Volumes.make_thin_pool args)
      ∷ (text "lvcreate-thin", Volumes.lvcreate_thin args)
      ∷ (text "lvm-format", Volumes.lvm_format args)
      ∷ (text "lvm-luks-format", Volumes.lvm_luks_format args)
      ∷ []

  -- runSetupOperation. That the disk is not ready is printed, and no more.
  unfoldable pub run_setup_operation : SetupStep → Go (Unit {0})
  run_setup_operation step = do
    target ← locate_disk step.disk
    attempt (wait_for_disk target.path)
    dispatch step.operation (setup_cases target step.params)

  -- RunSetup
  unfoldable pub run_setup : List SetupStep → Go (Unit {0})
  run_setup [] = pure tt
  run_setup (step ∷ steps) = do
    handling
        (wrap (format (text "failed to run setup operation " ∷ step.operation ∷ text ": " ∷ [])))
        (run_setup_operation step)
    run_setup steps
