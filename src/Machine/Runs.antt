-- ===== src/Machine/Runs.antt =====
-- What a Go function does that carries out a list of processes: it runs one after the other and
-- stops at the first that does not succeed.
use albius.Base.{◌≡◌, ◌≢◌, ◌⊎◌, inl, inr, refl, List, [], ◌∷◌, ◌++◌, append-nil, append_assoc}
use albius.Machine.{
  Platform, Process, Event, ran, Error, ok, err, success, World, Go, pure, ◌>>=◌, ◌>>◌, handling,
  Completed, Exit, perform, run_process,
}

module _ ⦃P : Platform⦄ where
  -- The function returned nil, and did all of `es`.
  pub record Finishes (m : Go (Unit {0})) (es : List Event) (w : World) : Type 0 where
    pub result : (m w).0 ≡ ok tt
    pub did : (m w).1.log ≡ w.log ++ es

  -- The function returned an error: it did `before` and ran a process that did not succeed, and of
  -- `after` it did nothing.
  pub record Stops (m : Go (Unit {0})) (es : List Event) (w : World) : Type 0 where
    pub error : Error
    pub before : List Event
    pub process : Process
    pub state : P.State
    pub after : List Event
    pub result : (m w).0 ≡ err error
    pub planned : es ≡ before ++ (ran process ∷ after)
    pub did : (m w).1.log ≡ w.log ++ (before ++ (ran process ∷ []))
    pub failed : (P.exec process state).0.exit ≢ success

  pub record Runs (m : Go (Unit {0})) (es : List Event) : Type 0 where
    pub at : (w : World) → Finishes m es w ⊎ Stops m es w

  pub Runs-pure : Runs (pure tt) []
  unfolding pure
  Runs-pure = record { at = λ w. inl (record { result = refl; did = rw append-nil }) }

  pub Runs-handling :
      (h : Error → Error) (m : Go (Unit {0})) (es : List Event) → Runs m es → Runs (handling h m) es
  unfolding handling
  Runs-handling h m es hm = record {
    at = λ w. elim (hm.at w) [
      | inl f ↦ inl (record { result = rw (f.result); did = f.did })
      | inr s ↦ inr (record {
        error = h s.error;
        before = s.before;
        process = s.process;
        state = s.state;
        after = s.after;
        result = rw (s.result);
        planned = s.planned;
        did = s.did;
        failed = s.failed;
      })
    ];
  }

  after_ok : (m n : Go (Unit {0})) (w : World) → (m w).0 ≡ ok tt → (m >> n) w ≡ n (m w).1
  unfolding ◌>>=◌
  after_ok m n w h = rw h

  after_err :
      (m n : Go (Unit {0})) (w : World) (e : Error)
      → (m w).0 ≡ err e
      → (m >> n) w ≡ (err e, (m w).1)
  unfolding ◌>>=◌
  after_err m n w e h = rw h

  module _ (m n : Go (Unit {0})) (es fs : List Event) where
    both_finish :
        (w : World) (f : Finishes m es w) → Finishes n fs (m w).1 → Finishes (m >> n) (es ++ fs) w
    both_finish w f g = record {
      result = rw (after_ok m n w f.result, g.result);
      did = rw (after_ok m n w f.result, g.did, f.did, append_assoc);
    }

    second_stops :
        (w : World) (f : Finishes m es w) → Stops n fs (m w).1 → Stops (m >> n) (es ++ fs) w
    second_stops w f s = record {
      error = s.error;
      before = es ++ s.before;
      process = s.process;
      state = s.state;
      after = s.after;
      result = rw (after_ok m n w f.result, s.result);
      planned = rw (s.planned, append_assoc);
      did = rw (after_ok m n w f.result, s.did, f.did, append_assoc, append_assoc);
      failed = s.failed;
    }

    first_stops : (w : World) → Stops m es w → Stops (m >> n) (es ++ fs) w
    first_stops w s = record {
      error = s.error;
      before = s.before;
      process = s.process;
      state = s.state;
      after = s.after ++ fs;
      result = rw (after_err m n w s.error s.result);
      planned = rw (s.planned, append_assoc);
      did = rw (after_err m n w s.error s.result, s.did);
      failed = s.failed;
    }

    -- One part after the other: what the second does is not done when the first stops.
    pub Runs-then : Runs m es → Runs n fs → Runs (m >> n) (es ++ fs)
    Runs-then hm hn = record {
      at = λ w. elim (hm.at w) [
        | inl f ↦ elim (hn.at (m w).1) [
          | inl g ↦ inl (both_finish w f g)
          | inr s ↦ inr (second_stops w f s)
        ]
        | inr s ↦ inr (first_stops w s)
      ];
    }

  -- An answer to how a process ended: nil for a success and an error for anything else
  abbrev pub Answers : (Exit → Go (Unit {0})) → Type 0
  Answers answer =
      (exit : Exit) (w : World)
      → ((exit ≡ success) × (answer exit w ≡ (ok tt, w)))
        ⊎ ((e : Error) × (exit ≢ success) × (answer exit w ≡ (err e, w)))

  pub Runs-process :
      (p : Process) (answer : Completed → Exit → Go (Unit {0}))
      → ((done : Completed) → Answers (answer done))
      → Runs (run_process p >>= λ done. answer done done.exit) (ran p ∷ [])
  unfolding run_process perform ◌>>=◌
  Runs-process p answer h = record {
    at = λ w.
        let done = (P.exec p w.state).0 in
        let w' : World = record { state = (P.exec p w.state).1; log = w.log ++ (ran p ∷ []) } in
        elim (h done done.exit w') [
          | inl (good, r) ↦ inl (record { result = rw r; did = rw r })
          | inr (e, bad, r) ↦ inr (record {
            error = e;
            before = [];
            process = p;
            state = w.state;
            after = [];
            result = rw r;
            planned = refl;
            did = rw r;
            failed = bad;
          })
        ];
  }
