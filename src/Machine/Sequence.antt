-- ===== src/Machine/Sequence.antt =====
-- Functions that are called one after the other, each only if those in front of it returned nil.
use albius.Base.{inl, inr, ◌⊎◌, ◌∙◌, ◌↔◌, ap, ◌≡◌, refl, List, [], ◌∷◌, ◌++◌}
use albius.Machine.{
  ◌>>◌, ◌>>◌, Platform, Error, Outcome, ok, err, panic, hang, World, Go, continue, ◌>>=◌, handling,
  mapped, must, raised_from,
}

module _ ⦃P : Platform⦄ where
  -- From one world to another by calls that all return nil
  abbrev pub Chain : List (Go (Unit {0})) → World → World → Type 0
  Chain [] w w' = w ≡ w'
  Chain (m ∷ ms) w w' = (w1 : World) × (m w ≡ (ok tt, w1)) × Chain ms w1 w'

  with_world : {A : Type 0} (m : Go A) (w : World) {a : A} → (m w).0 ≡ ok a → m w ≡ (ok a, (m w).1)
  with_world m w e = ap (λ r. (r, (m w).1)) e

  module _ {A B : Type 0} where
    continue_ok :
        (r : Outcome A) (f : A → Go B) (w : World) {b : B} {w' : World}
        → continue r f w ≡ (ok b, w')
        → (a : A) × (r ≡ ok a) × (f a w ≡ (ok b, w'))
    continue_ok (ok a) f w h = (a, refl, h)
    continue_ok (err e) f w h = cc
    continue_ok (panic p) f w h = cc
    continue_ok hang f w h = cc

    -- A bind that returned a value, taken apart with its worlds
    pub bind_ok :
        (m : Go A) (f : A → Go B) (w : World) {b : B} {w' : World}
        → (m >>= f) w ≡ (ok b, w')
        → (a : A) × (w1 : World) × (m w ≡ (ok a, w1)) × (f a w1 ≡ (ok b, w'))
    unfolding ◌>>=◌
    bind_ok m f w h =
        let (a, e, d) = continue_ok (m w).0 f (m w).1 h in (a, (m w).1, with_world m w e, d)

    pub ok_bind :
        (m : Go A) (f : A → Go B) (w : World) {a : A} {w1 : World}
        → m w ≡ (ok a, w1)
        → (m >>= f) w ≡ f a w1
    unfolding ◌>>=◌
    ok_bind m f w e = rw e

  module _ {A : Type 0} where
    mapped_ok : (h : Error → Error) (r : Outcome A) {a : A} → mapped h r ≡ ok a → r ≡ ok a
    mapped_ok h (ok b) e = e
    mapped_ok h (err d) e = cc
    mapped_ok h (panic p) e = cc
    mapped_ok h hang e = cc

    raised_ok : (r : Outcome A) {a : A} → raised_from r ≡ ok a → r ≡ ok a
    raised_ok (ok b) e = e
    raised_ok (err d) e = cc
    raised_ok (panic p) e = cc
    raised_ok hang e = cc

    pub handling_ok :
        (h : Error → Error) (m : Go A) (w : World) {a : A} {w' : World}
        → handling h m w ≡ (ok a, w')
        → m w ≡ (ok a, w')
    unfolding handling
    handling_ok h m w e =
        let r = mapped_ok h (m w).0 (ap (λ p. p.0) e) in let d = ap (λ p. p.1) e in λ i. (r i, d i)

    pub ok_handling :
        (h : Error → Error) (m : Go A) (w : World) {a : A} {w' : World}
        → m w ≡ (ok a, w')
        → handling h m w ≡ (ok a, w')
    unfolding handling
    ok_handling h m w e = rw e

    pub must_ok :
        (m : Go A) (w : World) {a : A} {w' : World} → must m w ≡ (ok a, w') → m w ≡ (ok a, w')
    unfolding must
    must_ok m w e =
        let r = raised_ok (m w).0 (ap (λ p. p.0) e) in let d = ap (λ p. p.1) e in λ i. (r i, d i)

    pub ok_must :
        (m : Go A) (w : World) {a : A} {w' : World} → m w ≡ (ok a, w') → must m w ≡ (ok a, w')
    unfolding must
    ok_must m w e = rw e

  pub Chain-append :
      (ms ns : List (Go (Unit {0}))) (w w1 w2 : World)
      → Chain ms w w1
      → Chain ns w1 w2
      → Chain (ms ++ ns) w w2
  Chain-append [] ns w w1 w2 e d = rw e d
  Chain-append (m ∷ ms) ns w w1 w2 (v, e, c) d = (v, e, Chain-append ms ns v w1 w2 c d)

  pub Chain-of_append :
      (ms ns : List (Go (Unit {0}))) (w w2 : World)
      → Chain (ms ++ ns) w w2
      → (w1 : World) × Chain ms w w1 × Chain ns w1 w2
  Chain-of_append [] ns w w2 c = (w, refl, c)
  Chain-of_append (m ∷ ms) ns w w2 (v, e, c) =
      let (w1, c1, c2) = Chain-of_append ms ns v w2 c in (w1, (v, e, c1), c2)

  -- A call whose error is wrapped, and what follows it
  pub handled_then :
      (h : Error → Error) (m n : Go (Unit {0})) (w w' : World)
      → ((handling h m >> n) w ≡ (ok tt, w'))
        ↔ ((w1 : World) × (m w ≡ (ok tt, w1)) × (n w1 ≡ (ok tt, w')))
  handled_then h m n w w' = (
    λ e.
        let (a, w1, e1, e2) = bind_ok (handling h m) (λ _. n) w e in (w1, handling_ok h m w e1, e2),
    λ p. let (w1, e1, e2) = p in ok_bind (handling h m) (λ _. n) w (ok_handling h m w e1) ∙ e2,
  )

  pub must_then :
      (m n : Go (Unit {0})) (w w' : World)
      → ((must m >> n) w ≡ (ok tt, w'))
        ↔ ((w1 : World) × (m w ≡ (ok tt, w1)) × (n w1 ≡ (ok tt, w')))
  must_then m n w w' = (
    λ e. let (a, w1, e1, e2) = bind_ok (must m) (λ _. n) w e in (w1, must_ok m w e1, e2),
    λ p. let (w1, e1, e2) = p in ok_bind (must m) (λ _. n) w (ok_must m w e1) ∙ e2,
  )

  handled_result :
      (h : Error → Error) (r : Outcome (Unit {0})) (v : World) (n : Go (Unit {0})) (e : Error)
      (w' : World)
      → continue (mapped h r) (λ _. n) v ≡ (err e, w')
      → ((d : Error) × (r ≡ err d) × (v ≡ w') × (e ≡ h d)) ⊎ ((r ≡ ok tt) × (n v ≡ (err e, w')))
  handled_result h (ok a) v n e w' c = inr (refl, c)
  handled_result h (err d) v n e w' c = inl (d, refl, cc, cc)
  handled_result h (panic p) v n e w' c = cc
  handled_result h hang v n e w' c = cc

  -- An error comes from the call or from what follows it.
  pub handled_fails :
      (h : Error → Error) (m n : Go (Unit {0})) (w w' : World) (e : Error)
      → (handling h m >> n) w ≡ (err e, w')
      → ((d : Error) × (m w ≡ (err d, w')) × (e ≡ h d))
        ⊎ ((w1 : World) × (m w ≡ (ok tt, w1)) × (n w1 ≡ (err e, w')))
  unfolding handling ◌>>=◌
  handled_fails h m n w w' e c = elim (handled_result h (m w).0 (m w).1 n e w' c) [
    | inl (d, r, v, t) ↦ inl (d, (λ i. (r i, v i)), t)
    | inr (r, c') ↦ inr ((m w).1, with_world m w r, c')
  ]
