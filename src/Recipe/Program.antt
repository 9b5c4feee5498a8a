-- ===== src/Recipe/Program.antt =====
-- `main` of albius.go, and `ReadRecipe` of core/recipe.go.
pub mod Failures
pub mod Phases
use albius.Base.{Bool, true, false, List, [], ◌∷◌, Text, text}
use albius.Machine.{
  Platform, message, wrap, raised, index_out_of_range, Go, throw, ◌>>=◌, ◌>>◌, handling, must,
}
use albius.Machine.Files.{read_file}
use albius.Disk.Images.{Reply, reply_or_fail, Images}
use albius.Recipe.Types.{Mountpoint}
use albius.Recipe.Setup.{SetupStep, run_setup}
use albius.Recipe.Mounts.{setup_mountpoints}
use albius.Recipe.Install.{Installation, install}
use albius.Recipe.PostInstall.{PostStep, run_post_install}

module _ ⦃P : Platform⦄ where
  pub record Recipe : Type 0 where
    pub setup : List SetupStep
    pub mountpoints : List Mountpoint
    pub installation : Installation
    pub post_installation : List PostStep

  module _ ⦃I : Images⦄ where
    -- The four parts of an installation, one after the other
    unfoldable pub run_recipe : Recipe → Go (Unit {0})
    run_recipe recipe = do
      must (run_setup recipe.setup)
      must (setup_mountpoints recipe.mountpoints)
      must (install recipe.installation recipe.mountpoints)
      must (run_post_install recipe.post_installation)

  -- json.Unmarshal into a Recipe
  module _ (decode_recipe : Text → Reply Recipe) where
    -- ReadRecipe
    unfoldable pub read_recipe : Text → Go Recipe
    read_recipe path =
        handling (wrap (text "failed to read recipe: "))
          (do content ← read_file path; reply_or_fail (decode_recipe content))

    run_at_path : ⦃I : Images⦄ → List Text → Go (Unit {0})
    run_at_path [] = throw index_out_of_range
    run_at_path (path ∷ rest) = do recipe ← must (read_recipe path); run_recipe recipe

    -- main at the arguments that follow the name of the program. What reexec.Init answers tells
    -- whether the process was started as a child of the program itself.
    unfoldable pub main : ⦃I : Images⦄ → Go Bool → List Text → Go (Unit {0})
    unfolding run_at_path
    main reexec_init args = do
      initialized ← reexec_init
      elim initialized [
        | true ↦ throw (raised (message (text "Failed to initialize reexec")))
        | false ↦ run_at_path args
      ]
