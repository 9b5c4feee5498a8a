-- ===== src/System/Config/RoundTrip.antt =====
-- WriteGrubConfig and GetGrubConfig of core/system/grub.go, one after the other.
use mathlib.Core.List.{Permᴰ}
use albius.Base.{
  ◌++◌, sym, ◌∙◌, ◌≡◌, refl, inl, inr, false, Bool-cases, Option, none, some, List, [], ◌∷◌, Text,
  split, split_2, All, All-append, ◌==◌, ==_of_ne, list_eq, nat_eq, list_beq_sound, append_assoc,
  arith,
}
use albius.Base.Splitting.{Lacks, split-append}
use albius.Machine.{
  Platform, World, contents, present, ok, handling, ◌>>=◌, lift, stat_path, observe,
}
use albius.Machine.Results.{◌>>=◌ as bind_outcome}
use albius.Machine.Sequence.{handling_ok}
use albius.Machine.Files.Answers.{write_file-ok, read_file-contents}
use albius.System.Config.{
  GrubConfig, lookup, set_key, set_pair, is_skipped, parse_lines, print_entries, grub_file,
  read_config, read_config_at, get_grub_config, write_grub_config,
}
use albius.System.Config.Entries.{IsUnique, IsEntry, lookup-set_key, Permᴰ-lookup, Permᴰ-All}

-- The entries set one after the other
abbrev add_all : GrubConfig → GrubConfig → GrubConfig
add_all [] config = config
add_all ((k, v) ∷ entries) config = add_all entries (set_key k v config)

or_else : Option Text → Option Text → Option Text
or_else none b = b
or_else (some a) b = some a

or_else-none : (a : Option Text) → or_else a none ≡ a
unfolding or_else
or_else-none none = refl
or_else-none (some a) = refl

lookup-add_all :
    (key : Text) (entries config : GrubConfig)
    → IsUnique entries
    → lookup key (add_all entries config) ≡ or_else (lookup key entries) (lookup key config)
unfolding lookup or_else
lookup-add_all key [] config _ = refl
lookup-add_all key ((k, v) ∷ entries) config (fresh, h) =
    rw (lookup-add_all key entries (set_key k v config) h, lookup-set_key key k v config)
      (elim (Bool-cases (k == key)) [
        | inl e ↦ rw (e, ← list_beq_sound k key e, fresh)
        | inr e ↦ rw e
      ])

-- Splitting the line of an entry at the first `=`
split_2-entry : (k v : Text) → Lacks b'=' k → split_2 b'=' (k ++ (b'=' ∷ v)) ≡ (k, some v)
unfolding split_2
split_2-entry [] v _ = refl
split_2-entry (c ∷ k) v (hc, h) = rw (split_2-entry k v h, ==_of_ne c b'=' hc)

is_skipped-entry :
    (k v : Text) → is_skipped (k ++ (b'=' ∷ [])) ≡ false → is_skipped (k ++ (b'=' ∷ v)) ≡ false
unfolding is_skipped
is_skipped-entry [] v e = refl
is_skipped-entry (c ∷ k) v e = e

split-print_entries :
    (k v : Text) (entries : List (Text × Text))
    → IsEntry (k, v)
    → split b'\n' (print_entries ((k, v) ∷ entries))
      ≡ (k ++ (b'=' ∷ v)) ∷ split b'\n' (print_entries entries)
unfolding print_entries
split-print_entries k v entries h =
    rw (sym (append_assoc k (b'=' ∷ v) (b'\n' ∷ print_entries entries))) (
      split-append b'\n' (k ++ (b'=' ∷ v)) (print_entries entries)
        (All-append _ k (b'=' ∷ v) h.2 ((λ e. absurd (omega arith)), h.3)))

parse_lines-entry :
    (k v line : Text) (lines : List Text) (config : GrubConfig)
    → is_skipped line ≡ false
    → split_2 b'=' line ≡ (k, some v)
    → parse_lines (line ∷ lines) config ≡ parse_lines lines (set_key k v config)
unfolding parse_lines set_pair bind_outcome
parse_lines-entry k v line lines config e d = rw (parse_lines, e, d)

parse-print_entries :
    (entries config : GrubConfig)
    → All IsEntry entries
    → parse_lines (split b'\n' (print_entries entries)) config ≡ ok (add_all entries config)
unfolding parse_lines print_entries split is_skipped
parse-print_entries [] config _ = refl
parse-print_entries ((k, v) ∷ entries) config (h, hs) = rw (split-print_entries k v entries h) (
    parse_lines-entry k v (k ++ (b'=' ∷ v)) (split b'\n' (print_entries entries)) config
      (is_skipped-entry k v h.0) (split_2-entry k v h.1)
    ∙ parse-print_entries entries (set_key k v config) hs)

module _ ⦃P : Platform⦄ where
  -- Reading a file that is there
  get_grub_config-contents :
      (root bytes : Text) (config : GrubConfig) (w : World)
      → (P.stat (grub_file root) w.state).0 ≡ present
      → (P.read_file (grub_file root) (P.stat (grub_file root) w.state).1).0 ≡ contents bytes
      → parse_lines (split b'\n' bytes) [] ≡ ok config
      → (w' : World) × (get_grub_config root w ≡ (ok config, w'))
  unfolding get_grub_config read_config_at read_config handling lift ◌>>=◌ stat_path observe
  get_grub_config-contents root bytes config w e1 e2 e3 =
      rw
        (
          e1,
          read_file-contents (grub_file root) bytes
              (record w { state = (P.stat (grub_file root) w.state).1 }) e2,
          e3,
        )
        (_, refl)

  -- A configuration in which no name stands twice, whose names are not empty comments, have no `=`
  -- and no line break, and whose values have no line break, is read back by GetGrubConfig from the
  -- file that WriteGrubConfig wrote without an error: every name has the value it had. This is
  -- where Go's range over the map meets every entry once, and a file that was written
  -- is there with what was written.
  pub get_grub_config-write_grub_config :
      (root : Text) (config : GrubConfig) (w w' : World)
      → IsUnique config
      → All IsEntry config
      → Permᴰ config (P.range_order config w.state).0
      → ((bytes : Text) (s s' : P.State)
          → P.write_file (grub_file root) bytes s ≡ (none, s')
          → ((P.stat (grub_file root) s').0 ≡ present)
            × ((P.read_file (grub_file root) (P.stat (grub_file root) s').1).0 ≡ contents bytes))
      → write_grub_config root config w ≡ (ok tt, w')
      → (found : GrubConfig) × (w'' : World) × (get_grub_config root w' ≡ (ok found, w''))
        × ((key : Text) → lookup key found ≡ lookup key config)
  unfolding write_grub_config ◌>>=◌ observe lookup
  get_grub_config-write_grub_config root config w w' unique entries order keeps e =
      let listed : GrubConfig = (P.range_order config w.state).0 in
      let written =
        write_file-ok (grub_file root) (print_entries listed) _ w' (handling_ok _ _ _ e) in
      let (there, reads) = keeps (print_entries listed) _ w'.state written in
      let (listed_unique, same) = Permᴰ-lookup order unique in
      let (w'', got) =
        get_grub_config-contents root (print_entries listed) (add_all listed []) w' there reads
          (parse-print_entries listed [] (Permᴰ-All IsEntry order entries)) in
      (
        add_all listed [],
        w'',
        got,
        λ key.
            lookup-add_all key listed [] listed_unique
            ∙ or_else-none (lookup key listed)
            ∙ sym (same key),
      )
