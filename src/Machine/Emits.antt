-- ===== src/Machine/Emits.antt =====
-- What a Go function may do to the machine: a predicate that all its events meet, whether it
-- returns, fails or panics, with one rule for each way to build a function.
use albius.Base.{
  ◌≡◌, refl, ◌∙◌, Bool, true, false, Option, none, some, List, [], ◌∷◌, ◌++◌, append-nil,
  append_assoc, All, All-append, Text, if◌then◌else◌,
}
use albius.Machine.{
  Platform, Process, Error, message, Panic, Event, ran, wrote, created, appended, removed, Outcome,
  ok, err, panic, hang, World, Go, pure, fail, throw, diverge, continue, ◌>>=◌, handling, attempt,
  perform, observe, run_process, stat_path, read_path, write_path, create_path, append_path,
  remove_path, fail_on, lift,
}

module _ ⦃P : Platform⦄ where
  -- The log that a call leaves is the log it found, and then events that meet `E`.
  pub record Emits {A : Type 0} (E : Event → Type 0) (m : Go A) : Type 0 where
    pub at : (w : World) → (es : List Event) × All E es × ((m w).1.log ≡ w.log ++ es)

  module _ {A : Type 0} {E : Event → Type 0} where
    pub Emits-pure : (a : A) → Emits E (pure a)
    unfolding pure
    Emits-pure a = record { at = λ w. ([], tt, rw append-nil) }

    pub Emits-fail : (e : Error) → Emits E (fail {A = A} e)
    unfolding fail
    Emits-fail e = record { at = λ w. ([], tt, rw append-nil) }

    pub Emits-throw : (p : Panic) → Emits E (throw {A = A} p)
    unfolding throw
    Emits-throw p = record { at = λ w. ([], tt, rw append-nil) }

    pub Emits-diverge : Emits E (diverge {A = A})
    unfolding diverge
    Emits-diverge = record { at = λ w. ([], tt, rw append-nil) }

    pub Emits-if : (b : Bool) (m n : Go A) → Emits E m → Emits E n → Emits E (if b then m else n)
    Emits-if true m n hm hn = hm
    Emits-if false m n hm hn = hn

    pub Emits-handling : (h : Error → Error) (m : Go A) → Emits E m → Emits E (handling h m)
    unfolding handling
    Emits-handling h m hm = record { at = λ w. hm.at w }

    pub Emits-attempt : (m : Go A) → Emits E m → Emits E (attempt m)
    unfolding attempt
    Emits-attempt m hm = record { at = λ w. hm.at w }

    pub Emits-perform : (e : Event) (f : P.State → A × P.State) → E e → Emits E (perform e f)
    unfolding perform
    Emits-perform e f h = record { at = λ w. (e ∷ [], (h, tt), refl) }

    pub Emits-observe : (f : P.State → A × P.State) → Emits E (observe f)
    unfolding observe
    Emits-observe f = record { at = λ w. ([], tt, rw append-nil) }

  module _ {A B : Type 0} {E : Event → Type 0} where
    pub Emits-continue :
        (r : Outcome A) (f : A → Go B) → ((a : A) → Emits E (f a)) → Emits E (λ w. continue r f w)
    Emits-continue (ok a) f hf = record { at = λ w. (hf a).at w }
    Emits-continue (err e) f hf = record { at = λ w. ([], tt, rw append-nil) }
    Emits-continue (panic p) f hf = record { at = λ w. ([], tt, rw append-nil) }
    Emits-continue hang f hf = record { at = λ w. ([], tt, rw append-nil) }

    pub Emits-bind :
        (m : Go A) (f : A → Go B) → Emits E m → ((a : A) → Emits E (f a)) → Emits E (m >>= f)
    unfolding ◌>>=◌
    Emits-bind m f hm hf = record {
      at = λ w.
          let (r, w') = m w in
          let (es, hes, e) = hm.at w in
          let (fs, hfs, d) = (Emits-continue r f hf).at w' in
          (es ++ fs, All-append E es fs hes hfs, d ∙ (rw (e, append_assoc)));
    }

  -- In some world the call gave this value.
  abbrev pub Gave : {A : Type 0} → Go A → A → Type 0
  Gave m a = (w : World) × ((m w).0 ≡ ok a)

  module _ {A B : Type 0} {E : Event → Type 0} where
    Emits-continue_gave :
        (m : Go A) (w : World) (r : Outcome A) (f : A → Go B)
        → (m w).0 ≡ r
        → ((a : A) → Gave m a → Emits E (f a))
        → Emits E (λ v. continue r f v)
    Emits-continue_gave m w (ok a) f e hf = record { at = λ v. (hf a (w, e)).at v }
    Emits-continue_gave m w (err d) f e hf = record { at = λ v. ([], tt, rw append-nil) }
    Emits-continue_gave m w (panic p) f e hf = record { at = λ v. ([], tt, rw append-nil) }
    Emits-continue_gave m w hang f e hf = record { at = λ v. ([], tt, rw append-nil) }

    -- What follows a call may use that the call gave the value.
    pub Emits-bind_gave :
        (m : Go A) (f : A → Go B)
        → Emits E m
        → ((a : A) → Gave m a → Emits E (f a))
        → Emits E (m >>= f)
    unfolding ◌>>=◌
    Emits-bind_gave m f hm hf = record {
      at = λ w.
          let (r, w') = m w in
          let (es, hes, e) = hm.at w in
          let (fs, hfs, d) = (Emits-continue_gave m w r f refl hf).at w' in
          (es ++ fs, All-append E es fs hes hfs, d ∙ (rw (e, append_assoc)));
    }

  module _ {E : Event → Type 0} where
    pub Emits-run : (p : Process) → E (ran p) → Emits E (run_process p)
    unfolding run_process
    Emits-run p h = Emits-perform _ _ h

    pub Emits-stat : (path : Text) → Emits E (stat_path path)
    unfolding stat_path
    Emits-stat path = Emits-observe _

    pub Emits-read : (path : Text) → Emits E (read_path path)
    unfolding read_path
    Emits-read path = Emits-observe _

    pub Emits-write : (path bytes : Text) → E (wrote path bytes) → Emits E (write_path path bytes)
    unfolding write_path
    Emits-write path bytes h = Emits-perform _ _ h

    pub Emits-create : (path : Text) → E (created path) → Emits E (create_path path)
    unfolding create_path
    Emits-create path h = Emits-perform _ _ h

    pub Emits-append :
        (path bytes : Text) → E (appended path bytes) → Emits E (append_path path bytes)
    unfolding append_path
    Emits-append path bytes h = Emits-perform _ _ h

    pub Emits-remove : (path : Text) → E (removed path) → Emits E (remove_path path)
    unfolding remove_path
    Emits-remove path h = Emits-perform _ _ h

    pub Emits-lift : {A : Type 0} (r : Outcome A) → Emits E (lift r)
    unfolding lift
    Emits-lift r = record { at = λ w. ([], tt, rw append-nil) }

    pub Emits-fail_on : (why : Option Text) → Emits E (fail_on why)
    unfolding fail_on
    Emits-fail_on none = Emits-pure tt
    Emits-fail_on (some why) = Emits-fail (message why)

pub ruleset emit_rules = (
  Emits-pure, Emits-fail, Emits-throw, Emits-diverge, Emits-if, Emits-handling, Emits-attempt,
  Emits-run, Emits-stat, Emits-read, Emits-write, Emits-create, Emits-append, Emits-remove,
  Emits-fail_on, Emits-lift, Emits-bind,
)
