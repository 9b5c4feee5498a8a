-- ===== src/System/Config/Parsed.antt =====
-- What GetGrubConfig of core/system/grub.go returns, whatever the file holds.
use mathlib.Core.Path.{subst}
use albius.Base.{
  ℕ, ◌++◌, ◌≡◌, ◌≢◌, refl, ap, inl, inr, false, Bool-cases, Option, none, some, List, [], ◌∷◌, Text,
  split, split_2, All, ◌==◌, list_eq, nat_eq, arith,
}
use albius.Base.Splitting.{Lacks, split-Lacks}
use albius.Machine.{
  Platform, World, Stat, present, absent, unreadable, ok, handling, lift, pure, stat_path,
}
use albius.Machine.Files.{read_file}
use albius.Machine.Sequence.{bind_ok}
use albius.Machine.Returns.{ok-injective, outcome-returns}
use albius.System.Config.{
  GrubConfig, set_pair, is_skipped, parse_lines, grub_file, read_config, read_config_at,
  get_grub_config,
}
use albius.System.Config.Entries.{IsUnique, IsEntry, set_key-IsUnique, set_key-All}

-- A map that a file can hold
abbrev IsConfig : GrubConfig → Type 0
IsConfig config = IsUnique config × All IsEntry config

-- What a split at the first `=` says of the line
abbrev pub IsSplit : Text → Text × Option Text → Type 0
IsSplit line (k, none) = Lacks b'=' line
IsSplit line (k, some v) = (line ≡ k ++ (b'=' ∷ v)) × Lacks b'=' k

cons-IsSplit :
    (c : ℕ) (line : Text) (r : Text × Option Text)
    → c ≢ b'='
    → IsSplit line r
    → IsSplit (c ∷ line) (c ∷ r.0, r.1)
cons-IsSplit c line (k, none) hc h = (hc, h)
cons-IsSplit c line (k, some v) hc (e, h) = (ap (λ s. c ∷ s) e, (hc, h))

pub split_2-IsSplit : (line : Text) → IsSplit line (split_2 b'=' line)
unfolding split_2
split_2-IsSplit [] = tt
split_2-IsSplit (c ∷ line) = elim (Bool-cases (c == b'=')) [
  | inl e ↦ rw e (ap (λ d. d ∷ line) (ground arith), tt)
  | inr e ↦ rw e (cons-IsSplit c line (split_2 b'=' line) (ground arith) (split_2-IsSplit line))
]

Lacks-of_line : (k v : Text) → Lacks b'\n' (k ++ (b'=' ∷ v)) → Lacks b'\n' k × Lacks b'\n' v
Lacks-of_line [] v (_, h) = (tt, h)
Lacks-of_line (c ∷ k) v (hc, h) = let (hk, hv) = Lacks-of_line k v h in ((hc, hk), hv)

is_skipped_of_line :
    (k v : Text) → is_skipped (k ++ (b'=' ∷ v)) ≡ false → is_skipped (k ++ (b'=' ∷ [])) ≡ false
unfolding is_skipped
is_skipped_of_line [] v e = refl
is_skipped_of_line (c ∷ k) v e = e

set_pair-IsConfig :
    (line : Text) (r : Text × Option Text) (config result : GrubConfig)
    → IsSplit line r
    → Lacks b'\n' line
    → is_skipped line ≡ false
    → IsConfig config
    → set_pair r config ≡ ok result
    → IsConfig result
unfolding set_pair
set_pair-IsConfig line (k, none) config result _ lacks skip h e = cc e
set_pair-IsConfig line (k, some v) config result (d, hk) lacks skip (hu, he) e =
    let (lk, lv) = Lacks-of_line k v (rw d at lacks) in
    let entry : IsEntry (k, v) = (is_skipped_of_line k v (rw d at skip), hk, lk, lv) in
    subst IsConfig (ok-injective e)
      (set_key-IsUnique k v config hu, set_key-All IsEntry k v config entry he)

parse_lines-IsConfig :
    (lines : List Text) (config result : GrubConfig)
    → All (Lacks b'\n') lines
    → IsConfig config
    → parse_lines lines config ≡ ok result
    → IsConfig result
unfolding parse_lines
parse_lines-IsConfig [] config result hs h e = subst IsConfig (ok-injective e) h
parse_lines-IsConfig (line ∷ lines) config result (hl, hs) h e =
    elim (Bool-cases (is_skipped line)) [
      | inl d ↦ parse_lines-IsConfig lines config result hs h (rw (parse_lines, d) at e)
      | inr d ↦
          let (next, e1, e2) =
            outcome-returns (set_pair (split_2 b'=' line) config) (parse_lines lines)
              (rw (parse_lines, d) at e) in
          parse_lines-IsConfig lines next result hs
            (set_pair-IsConfig line (split_2 b'=' line) config next (split_2-IsSplit line) hl d h
              e1)
            e2
    ]

module _ ⦃P : Platform⦄ where
  read_config-IsConfig :
      (path : Text) (w w' : World) (config : GrubConfig)
      → read_config path w ≡ (ok config, w')
      → IsConfig config
  unfolding read_config lift
  read_config-IsConfig path w w' config e =
      let (bytes, w1, e1, e2) = bind_ok (handling _ (read_file path)) _ w e in
      parse_lines-IsConfig (split b'\n' bytes) [] config (split-Lacks b'\n' bytes) (tt, tt)
        (ap (λ p. p.0) e2)

  read_config_at-IsConfig :
      (path : Text) (found : Stat) (w w' : World) (config : GrubConfig)
      → read_config_at path found w ≡ (ok config, w')
      → IsConfig config
  unfolding read_config_at pure
  read_config_at-IsConfig path absent w w' config e =
      subst IsConfig (ok-injective (ap (λ p. p.0) e)) (tt, tt)
  read_config_at-IsConfig path present w w' config e = read_config-IsConfig path w w' config e
  read_config_at-IsConfig path (unreadable why) w w' config e =
      read_config-IsConfig path w w' config e

  -- Whatever the file holds, the map that GetGrubConfig returns has no name twice, and each of its
  -- entries is one line that it would read again: the name is not an empty comment and has no `=`
  -- and no line break, and the value has no line break.
  pub get_grub_config-IsConfig :
      (root : Text) (w w' : World) (config : GrubConfig)
      → get_grub_config root w ≡ (ok config, w')
      → IsUnique config × All IsEntry config
  unfolding get_grub_config
  get_grub_config-IsConfig root w w' config e =
      let (found, w1, e1, e2) = bind_ok (stat_path (grub_file root)) _ w e in
      read_config_at-IsConfig (grub_file root) found w1 w' config e2
