-- ===== src/Machine/Polling.antt =====
-- Loops that poll the machine until a check answers true.
use albius.Base.{ℕ, zero, suc, ◌<◌, ◌≡◌, Bool, true, false, arith}
use albius.Machine.{Platform, Event, ok, World, Go, pure, ◌>>=◌, poll_until}
use albius.Machine.Emits.{Emits, Emits-pure, Emits-diverge, Emits-bind}

module _ ⦃P : Platform⦄ where
  -- The check answered false `k` times, which led from one world to another.
  abbrev pub Waits : ℕ → Go Bool → World → World → Type 0
  Waits zero check w w' = w ≡ w'
  Waits (suc k) check w w' = (w1 : World) × (check w ≡ (ok false, w1)) × Waits k check w1 w'

  pub poll_until-Waits :
      (n k : ℕ) (check : Go Bool) (w w1 w2 : World)
      → k < n
      → Waits k check w w1
      → check w1 ≡ (ok true, w2)
      → poll_until n check w ≡ (ok tt, w2)
  unfolding poll_until ◌>>=◌ pure
  poll_until-Waits zero k check w w1 w2 lt waits e = absurd (omega arith)
  poll_until-Waits (suc n) zero check w w1 w2 lt same e = rw (same, e)
  poll_until-Waits (suc n) (suc k) check w w1 w2 lt (v, d, waits) e =
      rw d (poll_until-Waits n k check v w1 w2 (omega arith) waits e)

  poll_round-Emits :
      {E : Event → Type 0} (n : ℕ) (check : Go Bool) (ready : Bool)
      → Emits E (poll_until n check)
      → Emits E (elim ready [ true ↦ pure tt | false ↦ poll_until n check ])
  poll_round-Emits n check true h = Emits-pure tt
  poll_round-Emits n check false h = h

  -- A polling loop does what its rounds do.
  pub poll_until-Emits :
      {E : Event → Type 0} (n : ℕ) (check : Go Bool) → Emits E check → Emits E (poll_until n check)
  unfolding poll_until
  poll_until-Emits zero check h = Emits-diverge
  poll_until-Emits (suc n) check h =
      Emits-bind _ _ h (λ ready. poll_round-Emits n check ready (poll_until-Emits n check h))
