-- ===== src/Recipe/Types.antt =====
-- The mountpoints of a recipe (core/recipe.go).
use albius.Base.{Text, text}

pub record Mountpoint : Type 0 where
  pub partition : Text
  pub target : Text

-- RootA and RootB
abbrev pub root_a : Text
root_a = text "/mnt/a"

abbrev pub root_b : Text
root_b = text "/mnt/b"

abbrev pub slash : Text
slash = text "/"
