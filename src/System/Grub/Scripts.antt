-- ===== src/System/Grub/Scripts.antt =====
-- Where the scripts of GRUB lie (core/system/grub.go): filepath.Base and filepath.Join.
use albius.Base.{
  ◌≢◌, false, refl, append-nil, ==_refl, Option, none, some, ==_of_ne, last_part, drop_slashes, ◌≡◌,
  ◌⊎◌, inl, inr, ◌∙◌, true, ◌||◌, Bool-cases, List, [], ◌∷◌, ◌++◌, reverse, Text, text, All, split,
  base_name, last_part, drop_slashes, join_path, clean, clean_parts, clean_step, cleaned, pop,
  has_prefix, join, dot, dot_dot, ◌==◌, list_eq, nat_eq, list_beq, arith,
}
use albius.Base.Splitting.{Lacks, split-eq_self, split-Lacks}
use albius.Recipe.Types.{root_a}
use albius.Base.Below.{IsBelow, is_plain, is_plain_of_name, slashed, has_slash}
use albius.Machine.Emits.{Emits, Emits-bind, Emits-handling, emit_rules}
use albius.Machine.Files.Emits.{Emits-read_file, Emits-write_file}
use albius.Machine.{
  Platform, Event, wrote, Stat, absent, unreadable, World, pure, fail, fail_on, present, removed,
  stat_path, observe, perform, remove_path, handling, ◌>>=◌,
}
use albius.Machine.Files.{remove_file}
use albius.System.Grub.{
  script_path, copy_script, add_script_at, add_grub_script, remove_script_at, remove_grub_script,
}

-- The elements of the path of the scripts' directory, the last of them first
abbrev script_dir : List Text
script_dir = text "grub.d" ∷ text "etc" ∷ text "a" ∷ text "mnt" ∷ []

script_path-step :
    (name : Text)
    → Lacks b'/' name
    → script_path root_a name ≡ cleaned true (reverse (clean_step true script_dir name))
unfolding script_path join_path clean clean_parts split has_prefix join text list_beq
script_path-step name h = rw (split-eq_self b'/' name h)

clean_step-plain :
    (stack : List Text) (name : Text)
    → name ≢ []
    → name ≢ dot
    → name ≢ dot_dot
    → clean_step true stack name ≡ name ∷ stack
unfolding clean_step
clean_step-plain stack name h k l =
    rw (==_of_ne name [] h, ==_of_ne name dot k, ==_of_ne name dot_dot l)

plain_of_tests :
    (name : Text)
    → Lacks b'/' name
    → (name == [] || name == dot) ≡ false
    → (name == dot_dot) ≡ false
    → is_plain name ≡ true
unfolding list_beq text
plain_of_tests name h e d =
    is_plain_of_name name h (λ same. cc (rw same at e)) (λ same. cc (rw same at e))
      (λ same. cc (d, same, ==_refl dot_dot))

-- A name is dropped, goes up, or is a plain one that is put behind the directory.
clean_step-cases :
    (stack : List Text) (name : Text)
    → Lacks b'/' name
    → (clean_step true stack name ≡ stack)
      ⊎ ((clean_step true stack name ≡ pop true stack)
          ⊎ ((clean_step true stack name ≡ name ∷ stack) × (is_plain name ≡ true)))
unfolding clean_step is_plain
clean_step-cases stack name h = elim (Bool-cases (name == [] || name == dot)) [
  | inl e ↦ inl (rw e)
  | inr e ↦ elim (Bool-cases (name == dot_dot)) [
    | inl d ↦ inr (inl (rw (e, d)))
    | inr d ↦ inr (inr ((rw (e, d)), plain_of_tests name h e d))
  ]
]

-- A name with no slash keeps the path of a script in the directory /mnt/a/etc.
script_path-under :
    (name : Text) → Lacks b'/' name → IsBelow (text "/mnt/a/etc") (script_path root_a name)
unfolding cleaned pop join text list_beq slashed is_plain has_slash
script_path-under name h = elim (clean_step-cases script_dir name h) [
  | inl e ↦ record {
    parts = text "grub.d" ∷ [];
    path_is = script_path-step name h ∙ (rw e);
    plain = (refl, tt);
  }
  | inr (inl e) ↦ record { parts = []; path_is = script_path-step name h ∙ (rw e); plain = tt }
  | inr (inr (e, plain)) ↦ record {
    parts = text "grub.d" ∷ name ∷ [];
    path_is = script_path-step name h ∙ (rw (e, append-nil));
    plain = (refl, (plain, tt));
  }
]

last_part-Lacks : (parts : List Text) → All (Lacks b'/') parts → Lacks b'/' (last_part parts)
unfolding last_part
last_part-Lacks [] h = tt
last_part-Lacks (part ∷ []) (h, _) = h
last_part-Lacks (part ∷ next ∷ parts) (_, h) = last_part-Lacks (next ∷ parts) h

-- filepath.Base gives a slash alone, or a name with no slash.
base_name-cases : (path : Text) → (base_name path ≡ b'/' ∷ []) ⊎ Lacks b'/' (base_name path)
unfolding base_name text
base_name-cases path =
    let part = last_part (split b'/' (reverse (drop_slashes (reverse path)))) in
    elim (Bool-cases (path == [])) [
      | inl e ↦ inr (rw e (ground arith))
      | inr e ↦ elim (Bool-cases (part == [])) [
        | inl d ↦ inl (rw (e, d))
        | inr d ↦ inr (rw (e, d) (last_part-Lacks _ (split-Lacks b'/' _)))
      ]
    ]

script_path-base_name :
    (path : Text) → IsBelow (text "/mnt/a/etc") (script_path root_a (base_name path))
unfolding script_path join_path clean clean_parts clean_step cleaned split has_prefix join text
    list_beq slashed is_plain has_slash
script_path-base_name path = elim (base_name-cases path) [
  | inl e ↦ record { parts = text "grub.d" ∷ []; path_is = rw e; plain = (refl, tt) }
  | inr h ↦ script_path-under (base_name path) h
]

-- Four times up from the directory of the scripts is the root of the machine.
script_path-escapes :
    (name : Text)
    → Lacks b'/' name
    → name ≢ []
    → name ≢ dot
    → name ≢ dot_dot
    → script_path root_a (text "../../../../" ++ name) ≡ b'/' ∷ name
unfolding script_path join_path clean clean_parts split has_prefix join text list_beq cleaned pop
    clean_step
script_path-escapes name h k l m =
    rw (split-eq_self b'/' name h, ==_of_ne name [] k, ==_of_ne name dot l, ==_of_ne name dot_dot m)

-- The writing of a file in the directory /mnt/a/etc, which is the one event of AddGrubScript
pub data ScriptEvent : Event → Type 0 where
  writes : (path bytes : Text) → IsBelow (text "/mnt/a/etc") path → ScriptEvent (wrote path bytes)

module _ ⦃P : Platform⦄ where
  module _ {E : Event → Type 0}
      (writes : (path bytes : Text) → IsBelow (text "/mnt/a/etc") path → E (wrote path bytes)) where
    copy_script-Emits : (path : Text) → Emits E (copy_script root_a path)
    unfolding copy_script
    copy_script-Emits path = Emits-bind _ _ (Emits-handling _ _ (Emits-read_file path)) (λ bytes.
        Emits-handling _ _ (Emits-write_file _ bytes (writes _ bytes (script_path-base_name path))))

    add_script_at-Emits : (path : Text) (found : Stat) → Emits E (add_script_at root_a path found)
    unfolding add_script_at
    add_script_at-Emits path absent = search emit_rules
    add_script_at-Emits path present = copy_script-Emits path
    add_script_at-Emits path (unreadable why) = copy_script-Emits path

    pub adds_script : (path : Text) → Emits E (add_grub_script root_a path)
    unfolding add_grub_script
    adds_script path = search (emit_rules, add_script_at-Emits)

  -- Whatever the path of the script and the machine, and also when it fails, AddGrubScript, called
  -- for the root /mnt/a, does nothing but write files in /mnt/a/etc, at a path in which no element
  -- is empty, . or .. behind that directory.
  pub add_grub_script-ScriptEvent : (path : Text) → Emits ScriptEvent (add_grub_script root_a path)
  add_grub_script-ScriptEvent = adds_script ScriptEvent.writes

  fail_on-log : (failed : Option Text) (w : World) → (fail_on failed w).1.log ≡ w.log
  unfolding fail_on pure fail
  fail_on-log none w = refl
  fail_on-log (some e) w = refl

  -- RemoveGrubScript, called for the root /mnt/a with four times ../ in front of a name, removes the
  -- file of this name in the root of the machine, if it is there, and does nothing else.
  pub remove_grub_script-escapes :
      (name : Text) (w : World)
      → Lacks b'/' name
      → name ≢ []
      → name ≢ dot
      → name ≢ dot_dot
      → (P.stat (b'/' ∷ name) w.state).0 ≡ present
      → (remove_grub_script root_a (text "../../../../" ++ name) w).1.log
        ≡ w.log ++ (removed (b'/' ∷ name) ∷ [])
  unfolding remove_grub_script remove_script_at stat_path observe perform remove_file remove_path
      handling ◌>>=◌
  remove_grub_script-escapes name w h k l m there =
      rw (script_path-escapes name h k l m, there) (fail_on-log _ _)
