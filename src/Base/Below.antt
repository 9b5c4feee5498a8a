-- ===== src/Base/Below.antt =====
-- Paths that lie in a directory, by their text.
use mathlib.Core.Path.{◌≡◌, refl}
use mathlib.Core.Logic.{◌≢◌}
use mathlib.Core.Bool.{Bool, true, false, not, ◌||◌}
use mathlib.Core.List.{List, [], ◌∷◌, ◌++◌}
use albius.Base.Tests.{◌==◌, ==_of_ne, list_eq, nat_eq}
use albius.Base.Lists.{All}
use albius.Base.Strings.{Text}
use albius.Base.FilePath.{dot, dot_dot}
use albius.Base.Splitting.{Lacks}

unfoldable pub has_slash : Text → Bool
has_slash [] = false
has_slash (c ∷ s) = (c == b'/') || has_slash s

-- An element of a path that stands for itself: not empty, not `.`, not `..`, and with no slash
unfoldable pub is_plain : Text → Bool
is_plain part = not (part == [] || (part == dot || (part == dot_dot || has_slash part)))

-- The elements, with a slash in front of each
unfoldable pub slashed : List Text → Text
slashed [] = []
slashed (part ∷ parts) = b'/' ∷ (part ++ slashed parts)

-- The path is the directory and plain elements behind it, so that it does not lead out of it.
pub record IsBelow (dir path : Text) : Type 0 where
  pub parts : List Text
  pub path_is : path ≡ dir ++ slashed parts
  pub plain : All (λ part. is_plain part ≡ true) parts

Lacks-has_slash : (s : Text) → Lacks b'/' s → has_slash s ≡ false
unfolding has_slash
Lacks-has_slash [] h = refl
Lacks-has_slash (c ∷ s) (h, hs) = rw (==_of_ne c b'/' h, Lacks-has_slash s hs)

pub is_plain_of_name :
    (name : Text) → Lacks b'/' name → name ≢ [] → name ≢ dot → name ≢ dot_dot → is_plain name ≡ true
unfolding is_plain
is_plain_of_name name h k l m =
    rw (==_of_ne name [] k, ==_of_ne name dot l, ==_of_ne name dot_dot m, Lacks-has_slash name h)
