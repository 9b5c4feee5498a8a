-- ===== src/Base/Splitting.antt =====
-- Texts that are split where they were joined.
use mathlib.Core.Path.{◌≡◌, refl}
use mathlib.Core.Logic.{◌≢◌}
use mathlib.Core.List.{List, [], ◌∷◌, ◌++◌}
use native.Mathlib.Omega.{arith}
use Prim.Native.Nat.{ℕ}
use mathlib.Core.Logic.{inl, inr}
use albius.Base.Tests.{nat_eq, ◌==◌, Bool-cases}
use albius.Base.Lists.{All, All-append}
use albius.Base.Strings.{Text, split, join, cons_head}

-- No byte of the text is the separator.
abbrev pub Lacks : ℕ → Text → Type 0
Lacks sep = All (λ c. c ≢ sep)

pub split-eq_self : (sep : ℕ) (p : Text) → Lacks sep p → split sep p ≡ p ∷ []
unfolding split
split-eq_self sep [] h = refl
split-eq_self sep (c ∷ p) (hc, h) = ground (arith, split-eq_self sep p h)

pub split-append :
    (sep : ℕ) (p s : Text) → Lacks sep p → split sep (p ++ (sep ∷ s)) ≡ p ∷ split sep s
unfolding split
split-append sep [] s h = ground arith
split-append sep (c ∷ p) s (hc, h) = ground (arith, split-append sep p s h)

-- Splitting a join gives the parts back, if there is a part and none holds the separator.
pub split-join :
    (sep : ℕ) (p : Text) (ps : List Text)
    → All (Lacks sep) (p ∷ ps)
    → split sep (join (p ∷ ps) (sep ∷ [])) ≡ p ∷ ps
unfolding join
split-join sep p [] (h, _) = split-eq_self sep p h
split-join sep p (q ∷ ps) (h, hs) =
    rw (split-append sep p (join (q ∷ ps) (sep ∷ [])) h, split-join sep q ps hs)

pub Lacks-join :
    (sep : ℕ) (glue : Text) (ps : List Text)
    → Lacks sep glue
    → All (Lacks sep) ps
    → Lacks sep (join ps glue)
unfolding join
Lacks-join sep glue [] hg h = tt
Lacks-join sep glue (p ∷ []) hg h = h.0
Lacks-join sep glue (p ∷ q ∷ ps) hg (hp, h) =
    All-append _ p _ hp (All-append _ glue _ hg (Lacks-join sep glue (q ∷ ps) hg h))

cons_head-Lacks :
    (sep c : ℕ) (parts : List Text)
    → c ≢ sep
    → All (Lacks sep) parts
    → All (Lacks sep) (cons_head c parts)
unfolding cons_head
cons_head-Lacks sep c [] h _ = ((h, tt), tt)
cons_head-Lacks sep c (p ∷ ps) h (hp, hs) = ((h, hp), hs)

-- No part of a split has the separator.
pub split-Lacks : (sep : ℕ) (s : Text) → All (Lacks sep) (split sep s)
unfolding split
split-Lacks sep [] = (tt, tt)
split-Lacks sep (c ∷ s) = elim (Bool-cases (c == sep)) [
  | inl e ↦ rw e (tt, split-Lacks sep s)
  | inr e ↦ rw e (cons_head-Lacks sep c (split sep s) (ground arith) (split-Lacks sep s))
]
