-- ===== src/System/Config/Panics.antt =====
-- Where GetGrubConfig of core/system/grub.go panics.
use albius.Base.{
  ℕ, ◌↔◌, ◌⊎◌, ◌++◌, ◌≡◌, ◌≢◌, refl, ==_refl, ==_of_ne, nat_eq, inl, inr, true, false, Bool-cases,
  Option, none, some, List, [], ◌∷◌, Text, split_2,
}
use albius.Base.Splitting.{Lacks}
use albius.Machine.{panic, index_out_of_range}
use albius.Machine.Results.{Outcome, ◌>>=◌ as bind_outcome}
use albius.System.Config.{GrubConfig, set_key, set_pair, is_skipped, parse_lines}
use albius.System.Config.Parsed.{IsSplit, split_2-IsSplit}

-- The line is not empty, does not begin with `#`, and has no `=`.
abbrev pub IsBroken : Text → Type 0
IsBroken [] = ⊥
IsBroken (c ∷ line) = (c ≢ b'#') × Lacks b'=' (c ∷ line)

-- Some line is neither empty nor a comment, and has no `=`.
abbrev pub HasBroken : List Text → Type 0
HasBroken [] = ⊥
HasBroken (line ∷ lines) = IsBroken line ⊎ HasBroken lines

read-IsBroken : (line : Text) → is_skipped line ≡ false → Lacks b'=' line → IsBroken line
unfolding is_skipped
read-IsBroken [] e h = cc e
read-IsBroken (c ∷ line) e h = ((λ same. cc (e, same, ==_refl {A = ℕ} b'#')), h)

skipped-IsBroken : (line : Text) → is_skipped line ≡ true → IsBroken line → ⊥
unfolding is_skipped
skipped-IsBroken [] e h = h
skipped-IsBroken (c ∷ line) e (h, _) = cc (e, ==_of_ne c b'#' h)

IsBroken-Lacks : (line : Text) → IsBroken line → Lacks b'=' line
IsBroken-Lacks [] h = absurd h
IsBroken-Lacks (c ∷ line) h = h.1

abbrev Panics : Outcome GrubConfig → Type 0
Panics r = r ≡ panic index_out_of_range

not-Lacks : (k v : Text) → Lacks b'=' (k ++ (b'=' ∷ v)) → ⊥
not-Lacks [] v (h, _) = h refl
not-Lacks (c ∷ k) v (_, h) = not-Lacks k v h

set_pair-Panics :
    (line : Text) (lines : List Text) (r : Text × Option Text) (config : GrubConfig)
    → IsSplit line r
    → ((config' : GrubConfig) → Panics (parse_lines lines config') ↔ HasBroken lines)
    → Panics (bind_outcome (set_pair r config) (parse_lines lines))
      ↔ (Lacks b'=' line ⊎ HasBroken lines)
unfolding set_pair
set_pair-Panics line lines (k, none) config h ih = (λ _. inl h, λ _. refl)
set_pair-Panics line lines (k, some v) config (e, _) ih = (
  λ p. inr ((ih (set_key k v config)).0 p),
  λ s. elim s [
    | inl h ↦ absurd (not-Lacks k v (rw e at h))
    | inr h ↦ (ih (set_key k v config)).1 h
  ],
)

-- GetGrubConfig panics at the lines of a file, whatever it read before, exactly when one of them
-- is not empty, does not begin with `#` and has no `=`.
pub parse_lines-HasBroken :
    (lines : List Text) (config : GrubConfig)
    → (parse_lines lines config ≡ panic index_out_of_range) ↔ HasBroken lines
unfolding parse_lines
parse_lines-HasBroken [] config = (λ e. cc e, λ h. absurd h)
parse_lines-HasBroken (line ∷ lines) config = elim (Bool-cases (is_skipped line)) [
  | inl e ↦
      let (to, from) = parse_lines-HasBroken lines config in
      rw (parse_lines, e)
        (
          λ p. inr (to p),
          λ s. elim s [ inl h ↦ absurd (skipped-IsBroken line e h) | inr h ↦ from h ],
        )
  | inr e ↦
      let (to, from) =
        set_pair-Panics line lines (split_2 b'=' line) config (split_2-IsSplit line)
          (parse_lines-HasBroken lines) in
      rw (parse_lines, e)
        (
          λ p. elim (to p) [ inl h ↦ inl (read-IsBroken line e h) | inr h ↦ inr h ],
          λ s. from (elim s [ inl h ↦ inl (IsBroken-Lacks line h) | inr h ↦ inr h ]),
        )
]
