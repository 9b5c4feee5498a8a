-- ===== src/Machine/Logged.antt =====
-- What stands in the log between two worlds, and what a call that returned put there.
use albius.Base.{◌≡◌, ◌∙◌, List, ◌++◌, All, All-append, append_assoc}
use albius.Machine.{Platform, Event, ok, World, Go, ◌>>=◌}
use albius.Machine.Emits.{Emits}

module _ ⦃P : Platform⦄ where
  abbrev pub Logged : (Event → Type 0) → World → World → Type 0
  Logged E w w' = (es : List Event) × All E es × (w'.log ≡ w.log ++ es)

  module _ {A B : Type 0} {E : Event → Type 0} where
    -- Where the first call returned a value, the log is what it put there, and then the second.
    pub Logged-bind :
        (m : Go A) (f : A → Go B) (w : World) (a : A)
        → Emits E m
        → (m w).0 ≡ ok a
        → Logged E (m w).1 (f a (m w).1).1
        → Logged E w ((m >>= f) w).1
    unfolding ◌>>=◌
    Logged-bind m f w a hm h (fs, hfs, d) =
        let (es, hes, e) = hm.at w in
        rw h (es ++ fs, All-append E es fs hes hfs, d ∙ (rw (e, append_assoc)))
