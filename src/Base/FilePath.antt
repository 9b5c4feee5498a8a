-- ===== src/Base/FilePath.antt =====
-- The functions of the package `path/filepath` that the program calls, on a Unix system.
use mathlib.Core.Bool.{Bool, true, false, ◌||◌}
use mathlib.Core.List.{List, [], ◌∷◌, reverse}
use albius.Base.Tests.{◌==◌, list_eq, nat_eq, if◌then◌else◌}
use albius.Base.Strings.{Text, text, has_prefix, split, join}

abbrev pub dot : Text
dot = text "."

abbrev pub dot_dot : Text
dot_dot = text ".."

-- A `..` behind the elements of `stack`, the last of them first
unfoldable pub pop : Bool → List Text → List Text
pop true [] = []
pop false [] = dot_dot ∷ []
pop rooted (top ∷ rest) = if top == dot_dot then dot_dot ∷ top ∷ rest else rest

unfoldable pub clean_step : Bool → List Text → Text → List Text
unfolding pop
clean_step rooted stack part =
    if part == [] || part == dot
    then stack
    else if part == dot_dot
    then pop rooted stack
    else part ∷ stack

unfoldable pub clean_parts : Bool → List Text → List Text → List Text
unfolding clean_step
clean_parts rooted stack [] = stack
clean_parts rooted stack (part ∷ parts) = clean_parts rooted (clean_step rooted stack part) parts

unfoldable pub cleaned : Bool → List Text → Text
cleaned true parts = b'/' ∷ join parts (b'/' ∷ [])
cleaned false [] = dot
cleaned false (part ∷ parts) = join (part ∷ parts) (b'/' ∷ [])

-- filepath.Clean
unfoldable pub clean : Text → Text
unfolding clean_parts cleaned
clean path =
    let rooted = has_prefix path (b'/' ∷ []) in
    cleaned rooted (reverse (clean_parts rooted [] (split b'/' path)))

-- filepath.Join
unfoldable pub join_path : List Text → Text
unfolding clean
join_path [] = []
join_path (elem ∷ elems) =
    if elem == [] then join_path elems else clean (join (elem ∷ elems) (b'/' ∷ []))

unfoldable pub drop_slashes : Text → Text
drop_slashes [] = []
drop_slashes (c ∷ s) = if c == b'/' then drop_slashes s else c ∷ s

-- The part behind the last slash
unfoldable pub last_part : List Text → Text
last_part [] = []
last_part (part ∷ []) = part
last_part (part ∷ next ∷ parts) = last_part (next ∷ parts)

-- filepath.Base
unfoldable pub base_name : Text → Text
unfolding drop_slashes last_part
base_name path =
    let part = last_part (split b'/' (reverse (drop_slashes (reverse path)))) in
    if path == [] then dot else if part == [] then b'/' ∷ [] else part
