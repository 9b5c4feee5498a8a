-- ===== src/Recipe/Setup/Secrets.antt =====
-- The steps of RunSetup (core/recipe.go) that have a LUKS password.
use albius.Base.{
  ◌==◌, ==_of_ne, list_eq, nat_eq, All, ◌≢◌, ◌≡◌, refl, List, [], ◌∷◌, Text, text, list_beq,
}
use albius.Machine.{Platform, shell, Go}
use albius.Machine.Secrets.{
  Alike, Alike-pure, Alike-fail, Alike-if, Alike-bind, Alike-handling, Alike-attempt,
}
use albius.Luks.{luks_password}
use albius.Lvm.Commands.Secrets.{Alike-find_lv}
use albius.Disk.Types.{Disk}
use albius.Disk.Table.Secrets.{Alike-locate_disk, Alike-wait_for_disk}
use albius.Recipe.Values.{Json, string}
use albius.Recipe.Values.Secrets.{Alike-string_at, Alike-string_at_secret}
use albius.Recipe.Dispatch.{dispatch}
use albius.Recipe.Setup.{SetupStep, run_setup, setup_cases, run_setup_operation}
use albius.Recipe.Setup.Partitions.Same
use albius.Recipe.Setup.Volumes.Secrets as Volumes
use albius.Recipe.Setup.Partitions.Secrets.{
  Alike-any_mkpart, Alike-mkpart, Alike-luks_format_existing, Alike-luks_format_partition,
}
use albius.Recipe.Setup.Volumes.{volume_partition, lvm_luks_format}

both_not_empty : (p q : Text) → p ≢ [] → q ≢ [] → (p == []) ≡ (q == [])
both_not_empty p q hp hq = rw (==_of_ne p [] hp, ==_of_ne q [] hq)

module _ ⦃P : Platform⦄ where
  -- An operation with a place for a password, and its other parameters, of any type
  pub data SecretStep : Type 0 where
    mkpart_step : (name fs start end : Json) → List Json → SecretStep
    luks_format_step : (n fs : Json) → List Json → SecretStep
    lvm_luks_format_step : (name fs : Json) → List Json → SecretStep

  abbrev pub operation_of : SecretStep → Text
  operation_of (mkpart_step name fs start end rest) = text "mkpart"
  operation_of (luks_format_step n fs rest) = text "luks-format"
  operation_of (lvm_luks_format_step name fs rest) = text "lvm-luks-format"

  abbrev pub params_of : SecretStep → Text → List Json
  params_of (mkpart_step name fs start end rest) p = name ∷ fs ∷ start ∷ end ∷ string p ∷ rest
  params_of (luks_format_step n fs rest) p = n ∷ fs ∷ string p ∷ rest
  params_of (lvm_luks_format_step name fs rest) p = name ∷ fs ∷ string p ∷ rest

  -- The step on a disk, with the password
  abbrev pub filled_in : Text → SecretStep → Text → SetupStep
  filled_in disk step p = record {
    disk = disk;
    operation = operation_of step;
    params = params_of step p;
  }

  module _ (p q : Text) (e : (p == []) ≡ (q == []))
      (same_answers : (command : Text) (s : P.State)
        → P.exec (shell (luks_password p) command) s
          ≡ P.exec (shell (luks_password q) command) s) where
    Alike-lvm_luks_format :
        (name fs : Json) (rest : List Json)
        → Alike
            (lvm_luks_format (name ∷ fs ∷ string p ∷ rest))
            (lvm_luks_format (name ∷ fs ∷ string q ∷ rest))
    unfolding lvm_luks_format
    Alike-lvm_luks_format name fs rest = Alike-bind _ _ _ _ (Alike-string_at _ _ 0 refl) (λ n.
        Alike-bind _ _ _ _ (Alike-string_at _ _ 1 refl) (λ f.
          Alike-string_at_secret _ _ 2 p q _ _ refl refl (
            Alike-bind _ _ _ _ (Alike-find_lv n []) (λ lv.
              Alike-luks_format_partition p q e same_answers (volume_partition lv f) 3 _ _ refl
                refl))))

    Alike-dispatch :
        (target : Disk) (step : SecretStep)
        → Alike
            (dispatch (operation_of step) (setup_cases target (params_of step p)))
            (dispatch (operation_of step) (setup_cases target (params_of step q)))
    unfolding dispatch setup_cases text list_beq
    Alike-dispatch target (mkpart_step name fs start end rest) =
        Alike-handling _ _ _ (Alike-mkpart p q e same_answers target name fs start end rest)
    Alike-dispatch target (luks_format_step n fs rest) =
        Alike-handling _ _ _ (Alike-luks_format_existing p q e same_answers target n fs rest)
    Alike-dispatch target (lvm_luks_format_step name fs rest) =
        Alike-handling _ _ _ (Alike-lvm_luks_format name fs rest)

    Alike-secret_step :
        (disk : Text) (step : SecretStep)
        → Alike
            (run_setup_operation (filled_in disk step p))
            (run_setup_operation (filled_in disk step q))
    unfolding run_setup_operation
    Alike-secret_step disk step = Alike-bind _ _ _ _ (Alike-locate_disk disk) (λ target.
        Alike-bind _ _ _ _ (Alike-attempt _ _ (Alike-wait_for_disk target.path))
          (λ ready. Alike-dispatch target step))

  Alike-any_dispatch :
      (operation : Text) (cases : List (Text × Go (Unit {0})))
      → All (λ c. Alike c.1 c.1) cases
      → Alike (dispatch operation cases) (dispatch operation cases)
  unfolding dispatch
  Alike-any_dispatch operation [] h = Alike-fail _
  Alike-any_dispatch operation ((name, handler) ∷ cases) (here, rest) =
      Alike-if (operation == name) _ _ _ _ (Alike-handling _ _ _ here)
        (Alike-any_dispatch operation cases rest)

  Alike-setup_cases :
      (target : Disk) (args : List Json) → All (λ c. Alike c.1 c.1) (setup_cases target args)
  unfolding setup_cases
  Alike-setup_cases target args =
      search
        (
          Same.Alike-label, Alike-any_mkpart, Same.Alike-rm, Same.Alike-resizepart,
          Same.Alike-namepart, Same.Alike-setlabel, Same.Alike-setflag, Same.Alike-format_existing,
          Same.Alike-any_luks_format, Volumes.Alike-pvcreate, Volumes.Alike-pvresize,
          Volumes.Alike-pvremove, Volumes.Alike-vgcreate, Volumes.Alike-vgrename,
          Volumes.Alike-vgextend, Volumes.Alike-vgreduce, Volumes.Alike-vgremove,
          Volumes.Alike-lvcreate, Volumes.Alike-lvrename, Volumes.Alike-lvremove,
          Volumes.Alike-make_thin_pool, Volumes.Alike-lvcreate_thin, Volumes.Alike-lvm_format,
          Volumes.Alike-lvm_luks_format,
        )
        depth 30

  Alike-plain_step :
      (step : SetupStep) → Alike (run_setup_operation step) (run_setup_operation step)
  unfolding run_setup_operation
  Alike-plain_step step = Alike-bind _ _ _ _ (Alike-locate_disk step.disk) (λ target.
      Alike-bind _ _ _ _ (Alike-attempt _ _ (Alike-wait_for_disk target.path))
        (λ ready. Alike-any_dispatch step.operation _ (Alike-setup_cases target step.params)))

  -- A setup in which places for the password are left
  pub data Template : Type 0 where
    plain : SetupStep → Template
    secret : Text → SecretStep → Template

  abbrev pub with_password : Text → List Template → List SetupStep
  with_password p [] = []
  with_password p (plain step ∷ steps) = step ∷ with_password p steps
  with_password p (secret disk step ∷ steps) = filled_in disk step p ∷ with_password p steps

  -- On a machine that answers each command alike with either of two passwords, not empty, as
  -- LUKSPASS in its environment, a setup with the one password in some of its steps for mkpart,
  -- luks-format and lvm-luks-format, and the same setup with the other there, return the same and
  -- do the same but for the environments of commands: no text of a command, no file and no error
  -- tells the one from the other.
  pub run_setup-Alike :
      (p q : Text)
      → p ≢ []
      → q ≢ []
      → ((command : Text) (s : P.State)
          → P.exec (shell (luks_password p) command) s ≡ P.exec (shell (luks_password q) command) s)
      → (steps : List Template)
      → Alike (run_setup (with_password p steps)) (run_setup (with_password q steps))
  unfolding run_setup
  run_setup-Alike p q hp hq same_answers [] = Alike-pure tt
  run_setup-Alike p q hp hq same_answers (plain step ∷ steps) =
      Alike-bind _ _ _ _ (Alike-handling _ _ _ (Alike-plain_step step))
        (λ done. run_setup-Alike p q hp hq same_answers steps)
  run_setup-Alike p q hp hq same_answers (secret disk step ∷ steps) =
      Alike-bind _ _ _ _
        (Alike-handling _ _ _
          (Alike-secret_step p q (both_not_empty p q hp hq) same_answers disk step))
        (λ done. run_setup-Alike p q hp hq same_answers steps)
