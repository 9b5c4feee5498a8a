-- ===== src/Machine/Steady.antt =====
-- What a Go function returns on a machine whose commands answer the same each time.
use albius.Base.{◌≡◌, refl, ap, Bool, true, false, if◌then◌else◌}
use albius.Machine.{
  Platform, Process, Error, Panic, Outcome, ok, err, panic, hang, World, Go, pure, fail, throw,
  continue, ◌>>=◌, handling, mapped, run_process, perform,
}

module _ ⦃P : Platform⦄ where
  -- What the call returns does not depend on the world.
  pub record Steady {A : Type 0} (m : Go A) : Type 0 where
    pub at : (w w' : World) → (m w).0 ≡ (m w').0

  module _ {A : Type 0} where
    pub Steady-pure : (a : A) → Steady (pure a)
    unfolding pure
    Steady-pure a = record { at = λ w w'. refl }

    pub Steady-fail : (e : Error) → Steady (fail {A = A} e)
    unfolding fail
    Steady-fail e = record { at = λ w w'. refl }

    pub Steady-throw : (p : Panic) → Steady (throw {A = A} p)
    unfolding throw
    Steady-throw p = record { at = λ w w'. refl }

    pub Steady-if : (b : Bool) (m n : Go A) → Steady m → Steady n → Steady (if b then m else n)
    Steady-if true m n hm hn = hm
    Steady-if false m n hm hn = hn

    pub Steady-handling : (h : Error → Error) (m : Go A) → Steady m → Steady (handling h m)
    unfolding handling
    Steady-handling h m hm = record { at = λ w w'. ap (mapped h) (hm.at w w') }

  module _ {A B : Type 0} where
    continue_same :
        (r : Outcome A) (f : A → Go B) (w w' : World)
        → ((a : A) → Steady (f a))
        → (continue r f w).0 ≡ (continue r f w').0
    continue_same (ok a) f w w' h = (h a).at w w'
    continue_same (err e) f w w' h = refl
    continue_same (panic p) f w w' h = refl
    continue_same hang f w w' h = refl

    pub Steady-bind :
        (m : Go A) (f : A → Go B) → Steady m → ((a : A) → Steady (f a)) → Steady (m >>= f)
    unfolding ◌>>=◌
    Steady-bind m f hm hf = record {
      at = λ w w'. rw (hm.at w w') (continue_same (m w').0 f (m w).1 (m w').1 hf);
    }

  pub Steady-run :
      (p : Process) → ((s s' : P.State) → (P.exec p s).0 ≡ (P.exec p s').0) → Steady (run_process p)
  unfolding run_process perform
  Steady-run p h = record { at = λ w w'. ap ok (h w.state w'.state) }

pub ruleset steady_rules =
    (Steady-pure, Steady-fail, Steady-throw, Steady-if, Steady-handling, Steady-run, Steady-bind)
