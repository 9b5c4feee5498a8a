-- ===== src/Recipe/Program/Failures.antt =====
-- Where `RunSetup` and `RunPostInstall` (core/recipe.go) stop.
use albius.Base.{◌≡◌, refl, ap, inl, inr, List, [], ◌∷◌, ◌++◌, map, Text, text, format}
use albius.Machine.{Platform, Error, wrap, err, World, Go, pure}
use albius.Machine.Sequence.{Chain, handled_fails}
use albius.Recipe.Setup.{SetupStep, run_setup_operation, run_setup}
use albius.Recipe.PostInstall.{PostStep, run_post_operation, run_post_install}

module _ ⦃P : Platform⦄ where
  -- The list of steps has one whose operation failed: all in front of it returned nil, none behind
  -- it was called, and its error is what `e` wraps.
  abbrev pub StopsAt :
      {A : Type 0} (run : A → Go (Unit {0})) (context : A → Text) (steps : List A) (e : Error)
      (w w' : World)
      → Type 0
  StopsAt {A} run context steps e w w' =
      (before : List A) × (step : A) × (after : List A) × (w1 : World) × (d : Error) × (steps
        ≡ before ++ (step ∷ after))
      × Chain (map run before) w w1
      × (run step w1 ≡ (err d, w'))
      × (e ≡ wrap (context step) d)

  abbrev pub setup_context : SetupStep → Text
  setup_context step =
      format (text "failed to run setup operation " ∷ step.operation ∷ text ": " ∷ [])

  abbrev pub post_context : PostStep → Text
  post_context step =
      format (text "failed to run post-install operation " ∷ step.operation ∷ text ": " ∷ [])

  -- When RunSetup returns an error, it comes from one step of the recipe: the operations in front
  -- of it all returned nil, the error is that of its operation, with the operation's name, and the
  -- world is the one that this operation left, so that no later operation was called.
  pub run_setup-StopsAt :
      (steps : List SetupStep) (w w' : World) (e : Error)
      → run_setup steps w ≡ (err e, w')
      → StopsAt run_setup_operation setup_context steps e w w'
  unfolding run_setup pure
  run_setup-StopsAt [] w w' e h = cc
  run_setup-StopsAt (step ∷ steps) w w' e h = elim (handled_fails _ _ _ w w' e h) [
    | inl (d, failed, same) ↦ ([], step, steps, w, d, refl, refl, failed, same)
    | inr (w1, good, h') ↦
        let (before, stop, after, v, d, split, chain, failed, same) =
          run_setup-StopsAt steps w1 w' e h' in
        (
          step ∷ before,
          stop,
          after,
          v,
          d,
          ap (λ s. step ∷ s) split,
          (w1, good, chain),
          failed,
          same,
        )
  ]

  -- When RunPostInstall returns an error, it comes from one step of the recipe: the operations in
  -- front of it all returned nil, the error is that of its operation, with the operation's name, and
  -- the world is the one that this operation left, so that no later operation was called.
  pub run_post_install-StopsAt :
      (steps : List PostStep) (w w' : World) (e : Error)
      → run_post_install steps w ≡ (err e, w')
      → StopsAt run_post_operation post_context steps e w w'
  unfolding run_post_install pure
  run_post_install-StopsAt [] w w' e h = cc
  run_post_install-StopsAt (step ∷ steps) w w' e h = elim (handled_fails _ _ _ w w' e h) [
    | inl (d, failed, same) ↦ ([], step, steps, w, d, refl, refl, failed, same)
    | inr (w1, good, h') ↦
        let (before, stop, after, v, d, split, chain, failed, same) =
          run_post_install-StopsAt steps w1 w' e h' in
        (
          step ∷ before,
          stop,
          after,
          v,
          d,
          ap (λ s. step ∷ s) split,
          (w1, good, chain),
          failed,
          same,
        )
  ]
