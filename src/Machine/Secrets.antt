-- ===== src/Machine/Secrets.antt =====
-- Two Go functions that differ in the environments of commands and in nothing else.
use albius.Base.{
  ◌≡◌, refl, ap, ◌∙◌, sym, Bool, true, false, ℕ, zero, suc, List, [], ◌∷◌, ◌++◌, map, map-append,
  Text, if◌then◌else◌,
}
use albius.Machine.{
  Platform, Process, shell, Error, Panic, Event, ran, Outcome, ok, err, panic, hang, World, Go,
  pure, fail, throw, diverge, continue, ◌>>=◌, handling, mapped, attempt, attempted, perform,
  observe, lift, poll_until, run_process, stat_path,
}

-- The event without the environment of the command
abbrev pub redact : Event → Event
redact (ran (shell env command)) = ran (shell [] command)
redact other = other

both : {es es' : List Event} {e e' : Event} → es ≡ es' → e ≡ e' → es ++ (e ∷ []) ≡ es' ++ (e' ∷ [])
both h g = cc (h, g)

module _ ⦃P : Platform⦄ where
  -- The same state, and logs that differ in the environments of commands
  pub record Similar (w w' : World) : Type 0 where
    pub state : w.state ≡ w'.state
    pub log : map redact w.log ≡ map redact w'.log

  -- From similar worlds the two calls return the same, and lead to similar worlds.
  pub record Alike {A : Type 0} (m m' : Go A) : Type 0 where
    pub at : (w w' : World) → Similar w w' → ((m w).0 ≡ (m' w').0) × Similar (m w).1 (m' w').1

  module _ {A : Type 0} where
    pub Alike-pure : (a : A) → Alike (pure a) (pure a)
    unfolding pure
    Alike-pure a = record { at = λ w w' s. (refl, s) }

    pub Alike-fail : (e : Error) → Alike (fail {A = A} e) (fail e)
    unfolding fail
    Alike-fail e = record { at = λ w w' s. (refl, s) }

    pub Alike-throw : (p : Panic) → Alike (throw {A = A} p) (throw p)
    unfolding throw
    Alike-throw p = record { at = λ w w' s. (refl, s) }

    pub Alike-diverge : Alike (diverge {A = A}) diverge
    unfolding diverge
    Alike-diverge = record { at = λ w w' s. (refl, s) }

    pub Alike-lift : (r : Outcome A) → Alike (lift r) (lift r)
    unfolding lift
    Alike-lift r = record { at = λ w w' s. (refl, s) }

    pub Alike-if :
        (b : Bool) (m m' n n' : Go A)
        → Alike m m'
        → Alike n n'
        → Alike (if b then m else n) (if b then m' else n')
    Alike-if true m m' n n' hm hn = hm
    Alike-if false m m' n n' hm hn = hn

    pub Alike-handling :
        (h : Error → Error) (m m' : Go A) → Alike m m' → Alike (handling h m) (handling h m')
    unfolding handling
    Alike-handling h m m' hm = record {
      at = λ w w' s. let (same, s') = hm.at w w' s in (ap (mapped h) same, s');
    }

    pub Alike-attempt : (m m' : Go A) → Alike m m' → Alike (attempt m) (attempt m')
    unfolding attempt
    Alike-attempt m m' hm = record {
      at = λ w w' s. let (same, s') = hm.at w w' s in (ap attempted same, s');
    }

    pub Alike-observe : (f : P.State → A × P.State) → Alike (observe f) (observe f)
    unfolding observe
    Alike-observe f = record {
      at = λ w w' s.
          (ap (λ x. ok (f x).0) s.state, record { state = ap (λ x. (f x).1) s.state; log = s.log });
    }

    pub Alike-perform :
        (e e' : Event) (f f' : P.State → A × P.State)
        → redact e ≡ redact e'
        → ((s : P.State) → f s ≡ f' s)
        → Alike (perform e f) (perform e' f')
    unfolding perform
    Alike-perform e e' f f' he hf = record {
      at = λ w w' s.
          let same : f w.state ≡ f' w'.state = ap f s.state ∙ hf w'.state in
          (
            ap (λ x. ok x.0) same,
            record {
              state = ap (λ x. x.1) same;
              log =
                  map-append redact w.log (e ∷ [])
                  ∙ both s.log he
                  ∙ sym (map-append redact w'.log (e' ∷ []));
            },
          );
    }

  module _ {A B : Type 0} where
    continue-Alike :
        (r : Outcome A) (f f' : A → Go B) (w w' : World)
        → ((a : A) → Alike (f a) (f' a))
        → Similar w w'
        → ((continue r f w).0 ≡ (continue r f' w').0)
          × Similar (continue r f w).1 (continue r f' w').1
    continue-Alike (ok a) f f' w w' hf s = (hf a).at w w' s
    continue-Alike (err e) f f' w w' hf s = (refl, s)
    continue-Alike (panic p) f f' w w' hf s = (refl, s)
    continue-Alike hang f f' w w' hf s = (refl, s)

    pub Alike-bind :
        (m m' : Go A) (f f' : A → Go B)
        → Alike m m'
        → ((a : A) → Alike (f a) (f' a))
        → Alike (m >>= f) (m' >>= f')
    unfolding ◌>>=◌
    Alike-bind m m' f f' hm hf = record {
      at = λ w w' s.
          let (same, s') = hm.at w w' s in
          rw same (continue-Alike (m' w').0 f f' (m w).1 (m' w').1 hf s');
    }

  pub Alike-run : (p : Process) → Alike (run_process p) (run_process p)
  unfolding run_process
  Alike-run p = Alike-perform (ran p) (ran p) (P.exec p) (P.exec p) refl (λ s. refl)

  pub Alike-run_env :
      (env env' : List Text) (command : Text)
      → ((s : P.State) → P.exec (shell env command) s ≡ P.exec (shell env' command) s)
      → Alike (run_process (shell env command)) (run_process (shell env' command))
  unfolding run_process
  Alike-run_env env env' command h = Alike-perform _ _ _ _ refl h

  pub Alike-stat : (path : Text) → Alike (stat_path path) (stat_path path)
  unfolding stat_path
  Alike-stat path = Alike-observe _

  poll_round :
      (n : ℕ) (check : Go Bool) (ready : Bool)
      → Alike (poll_until n check) (poll_until n check)
      → Alike
          (elim ready [ true ↦ pure tt | false ↦ poll_until n check ])
          (elim ready [ true ↦ pure tt | false ↦ poll_until n check ])
  poll_round n check true h = Alike-pure tt
  poll_round n check false h = h

  pub Alike-poll_until :
      (n : ℕ) (check : Go Bool)
      → Alike check check
      → Alike (poll_until n check) (poll_until n check)
  unfolding poll_until
  Alike-poll_until zero check h = Alike-diverge
  Alike-poll_until (suc n) check h =
      Alike-bind check check _ _ h (λ ready. poll_round n check ready (Alike-poll_until n check h))

pub ruleset secret_rules = (
  Alike-pure, Alike-fail, Alike-throw, Alike-lift, Alike-if, Alike-handling, Alike-attempt,
  Alike-run, Alike-stat, Alike-poll_until, Alike-bind,
)
