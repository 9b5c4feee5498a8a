-- ===== src/Recipe/Program/Phases.antt =====
-- What an installation is: the operations of the recipe, one after the other (albius.go, and
-- `RunSetup` and `RunPostInstall` of core/recipe.go).
use albius.Base.{◌≡◌, ◌↔◌, ap, List, [], ◌∷◌, ◌++◌, map}
use albius.Machine.{Platform, ok, World, Go, pure}
use albius.Machine.Sequence.{
  Chain, Chain-append, Chain-of_append, handled_then, must_then, must_ok, ok_must,
}
use albius.Disk.Images.{Images}
use albius.Recipe.Setup.{SetupStep, run_setup_operation, run_setup}
use albius.Recipe.Mounts.{setup_mountpoints}
use albius.Recipe.Install.{install}
use albius.Recipe.PostInstall.{PostStep, run_post_operation, run_post_install}
use albius.Recipe.Program.{Recipe, run_recipe}

module _ ⦃P : Platform⦄ where
  same_world : (w w' : World) → (pure tt w ≡ (ok tt, w')) ↔ (w ≡ w')
  unfolding pure
  same_world w w' = (λ e. ap (λ p. p.1) e, λ e. ap (λ v. (ok tt, v)) e)

  run_setup-Chain :
      (steps : List SetupStep) (w w' : World)
      → (run_setup steps w ≡ (ok tt, w')) ↔ Chain (map run_setup_operation steps) w w'
  unfolding run_setup
  run_setup-Chain [] w w' = same_world w w'
  run_setup-Chain (step ∷ steps) w w' = (
    λ e.
        let (w1, e1, e2) = (handled_then _ _ _ w w').0 e in
        (w1, e1, (run_setup-Chain steps w1 w').0 e2),
    λ c.
        let (w1, e1, c1) = c in
        (handled_then _ _ _ w w').1 (w1, e1, (run_setup-Chain steps w1 w').1 c1),
  )

  run_post_install-Chain :
      (steps : List PostStep) (w w' : World)
      → (run_post_install steps w ≡ (ok tt, w')) ↔ Chain (map run_post_operation steps) w w'
  unfolding run_post_install
  run_post_install-Chain [] w w' = same_world w w'
  run_post_install-Chain (step ∷ steps) w w' = (
    λ e.
        let (w1, e1, e2) = (handled_then _ _ _ w w').0 e in
        (w1, e1, (run_post_install-Chain steps w1 w').0 e2),
    λ c.
        let (w1, e1, c1) = c in
        (handled_then _ _ _ w w').1 (w1, e1, (run_post_install-Chain steps w1 w').1 c1),
  )

  module _ ⦃I : Images⦄ where
    -- The operations of a recipe in their order
    abbrev pub plan : Recipe → List (Go (Unit {0}))
    plan recipe =
        map run_setup_operation recipe.setup
        ++ (setup_mountpoints recipe.mountpoints
            ∷ install recipe.installation recipe.mountpoints
            ∷ map run_post_operation recipe.post_installation)

    -- The program ends well exactly when the setup operations, the mounting, the installation and the
    -- post-installation operations of the recipe, called in this order, each return nil, and it
    -- leaves the world that the last of them leaves.
    pub run_recipe-Chain :
        (recipe : Recipe) (w w' : World)
        → (run_recipe recipe w ≡ (ok tt, w')) ↔ Chain (plan recipe) w w'
    unfolding run_recipe
    run_recipe-Chain recipe w w' = (
      λ e.
          let (w1, e1, f1) = (must_then _ _ w w').0 e in
          let (w2, e2, f2) = (must_then _ _ w1 w').0 f1 in
          let (w3, e3, f3) = (must_then _ _ w2 w').0 f2 in
          Chain-append (map run_setup_operation recipe.setup) _ w w1 w'
            ((run_setup-Chain recipe.setup w w1).0 e1)
            (
              w2,
              e2,
              (w3, e3, (run_post_install-Chain recipe.post_installation w3 w').0 (must_ok _ w3 f3)),
            ),
      λ c.
          let (w1, c1, c2) = Chain-of_append (map run_setup_operation recipe.setup) _ w w' c in
          let (w2, e2, c3) = c2 in
          let (w3, e3, c4) = c3 in
          (must_then _ _ w w').1 (
            w1,
            (run_setup-Chain recipe.setup w w1).1 c1,
            (must_then _ _ w1 w').1 (
              w2,
              e2,
              (must_then _ _ w2 w').1 (
                w3,
                e3,
                ok_must _ w3 ((run_post_install-Chain recipe.post_installation w3 w').1 c4),
              ),
            ),
          ),
    )
