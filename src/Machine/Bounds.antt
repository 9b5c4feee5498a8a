-- ===== src/Machine/Bounds.antt =====
-- How much a Go function does at most: a bound on its events, and that it ends.
use albius.Base.{
  ℕ, ◌+◌, ◌≤◌, ◌≡◌, refl, ◌∙◌, List, [], ◌∷◌, ◌++◌, append-nil, append_assoc, length, length-append,
  arith,
}
use albius.Machine.{
  Platform, Error, Event, Outcome, ok, err, panic, hang, World, Go, pure, fail, continue, ◌>>=◌,
  perform, observe,
}

-- An outcome of a function that ends
abbrev pub Ends : {A : Type 0} → Outcome A → Type 0
Ends (ok a) = Unit {0}
Ends (err e) = Unit {0}
Ends (panic p) = Unit {0}
Ends hang = ⊥

module _ ⦃P : Platform⦄ where
  -- In every world the call ends, and adds at most `n` events to the log.
  pub record Bounded {A : Type 0} (n : ℕ) (m : Go A) : Type 0 where
    pub at :
        (w : World)
        → Ends (m w).0 × (es : List Event) × (length es ≤ n) × ((m w).1.log ≡ w.log ++ es)

  module _ {A : Type 0} where
    pub Bounded-le : {n k : ℕ} (m : Go A) → n ≤ k → Bounded n m → Bounded k m
    Bounded-le m le h = record {
      at = λ w. let (ends, es, short, did) = h.at w in (ends, es, omega arith, did);
    }

    pub Bounded-pure : (a : A) → Bounded 0 (pure a)
    unfolding pure
    Bounded-pure a = record { at = λ w. (tt, [], omega arith, rw append-nil) }

    pub Bounded-fail : (e : Error) → Bounded 0 (fail {A = A} e)
    unfolding fail
    Bounded-fail e = record { at = λ w. (tt, [], omega arith, rw append-nil) }

    pub Bounded-perform : (e : Event) (f : P.State → A × P.State) → Bounded 1 (perform e f)
    unfolding perform
    Bounded-perform e f = record { at = λ w. (tt, e ∷ [], omega arith, refl) }

    pub Bounded-observe : (f : P.State → A × P.State) → Bounded 0 (observe f)
    unfolding observe
    Bounded-observe f = record { at = λ w. (tt, [], omega arith, rw append-nil) }

  module _ {A B : Type 0} where
    Bounded-continue :
        {n : ℕ} (r : Outcome A) (f : A → Go B)
        → Ends r
        → ((a : A) → Bounded n (f a))
        → Bounded n (λ w. continue r f w)
    Bounded-continue (ok a) f _ hf = record { at = λ w. (hf a).at w }
    Bounded-continue (err e) f _ hf = record { at = λ w. (tt, [], omega arith, rw append-nil) }
    Bounded-continue (panic p) f _ hf = record { at = λ w. (tt, [], omega arith, rw append-nil) }
    Bounded-continue hang f h hf = absurd h

    pub Bounded-bind :
        {n k : ℕ} (m : Go A) (f : A → Go B)
        → Bounded n m
        → ((a : A) → Bounded k (f a))
        → Bounded (n + k) (m >>= f)
    unfolding ◌>>=◌
    Bounded-bind m f hm hf = record {
      at = λ w.
          let (r, w') = m w in
          let (ends, es, short, did) = hm.at w in
          let (ends', fs, short', did') = (Bounded-continue r f ends hf).at w' in
          (ends', es ++ fs, omega (arith, length-append es fs), did' ∙ rw (did, append_assoc));
    }
