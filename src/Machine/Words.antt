-- ===== src/Machine/Words.antt =====
-- Commands that name a path.
use albius.Base.{◌≡◌, refl, ◌⊎◌, inl, inr, [], ◌∷◌, ◌++◌, Text}

-- The command has the path as a word, behind a blank, and at its end or in front of a blank.
pub record WorksOn (path command : Text) : Type 0 where
  pub before : Text
  pub after : Text
  pub word : (after ≡ []) ⊎ ((rest : Text) × (after ≡ b' ' ∷ rest))
  pub is : command ≡ before ++ (b' ' ∷ (path ++ after))

pub WorksOn-last : (before path : Text) → WorksOn path (before ++ (b' ' ∷ (path ++ [])))
WorksOn-last before path = record { before = before; after = []; word = inl refl; is = refl }

pub WorksOn-inner :
    (before path rest : Text) → WorksOn path (before ++ (b' ' ∷ (path ++ (b' ' ∷ rest))))
WorksOn-inner before path rest = record {
  before = before;
  after = b' ' ∷ rest;
  word = inr (rest, refl);
  is = refl;
}
