-- ===== src/Util/Paths.antt =====
-- What the expressions of `SeparateDiskPart` (core/util/util.go) find in a path of a known shape.
use mathlib.Core.List.{reverse-append, reverse-reverse, reverse-cons}
use albius.Base.{
  ◌≡◌, refl, ℕ, Bool, true, false, [], ◌∷◌, ◌++◌, reverse, append-nil, append_assoc, All, get_last?,
  ap, some, All-append, Text, text, has_prefix, drop_prefix, is_digit, nat_eq, ==_refl, arith,
}
use albius.Util.{is_lower, is_alpha, span, match_group, find_disk, find_number, separate_disk_part}

abbrev pub Passes : (ℕ → Bool) → Text → Type 0
Passes test = All (λ c. test c ≡ true)

-- A text is empty, or begins with a byte that fails the test.
abbrev pub Stops : (ℕ → Bool) → Text → Type 0
Stops test [] = Unit
Stops test (c ∷ s) = test c ≡ false

pub span-stop : (test : ℕ → Bool) (rest : Text) → Stops test rest → span test rest ≡ ([], rest)
unfolding span
span-stop test [] h = refl
span-stop test (c ∷ rest) h = rw h

pub span-append :
    (test : ℕ → Bool) (front rest : Text)
    → Passes test front
    → Stops test rest
    → span test (front ++ rest) ≡ (front, rest)
unfolding span
span-append test [] rest _ h = span-stop test rest h
span-append test (c ∷ front) rest (p, ps) h = rw (p, span-append test front rest ps h)

pub span-all : (test : ℕ → Bool) (s : Text) → Passes test s → span test s ≡ (s, [])
span-all test s h = rw append-nil at (span-append test s [] h tt)

pub has_prefix-append : (p s : Text) → has_prefix (p ++ s) p ≡ true
unfolding has_prefix
has_prefix-append [] s = refl
has_prefix-append (c ∷ p) s = rw (==_refl c, has_prefix-append p s)

pub drop_prefix-append : (p s : Text) → drop_prefix (p ++ s) p ≡ s
unfolding drop_prefix
drop_prefix-append [] s = refl
drop_prefix-append (c ∷ p) s = drop_prefix-append p s

-- The disk is `/dev/`, the letters and what the optional group takes of the rest.
pub find_disk_lem :
    (c : ℕ) (letters rest : Text)
    → Passes is_alpha (c ∷ letters)
    → Stops is_alpha rest
    → find_disk (text "/dev/" ++ ((c ∷ letters) ++ rest))
      ≡ text "/dev/" ++ ((c ∷ letters) ++ match_group rest)
unfolding find_disk
find_disk_lem c letters rest h stop = rw (
  has_prefix-append (text "/dev/") ((c ∷ letters) ++ rest),
  drop_prefix-append (text "/dev/") ((c ∷ letters) ++ rest),
  span-append is_alpha (c ∷ letters) rest h stop,
)

-- Digits, a small letter and digits are all taken.
pub match_group_lem :
    (c d e : ℕ) (first second rest : Text)
    → Passes is_digit (d ∷ first)
    → is_lower c ≡ true
    → Passes is_digit (e ∷ second)
    → Stops is_digit rest
    → match_group ((d ∷ first) ++ (c ∷ ((e ∷ second) ++ rest))) ≡ (d ∷ first) ++ (c ∷ (e ∷ second))
unfolding match_group
match_group_lem c d e first second rest hd hc he stop = rw (
  span-append is_digit (d ∷ first) (c ∷ ((e ∷ second) ++ rest)) hd (ground arith),
  hc,
  span-append is_digit (e ∷ second) rest he stop,
)

-- Digits alone are not a group.
pub match_group_digits : (digits : Text) → Passes is_digit digits → match_group digits ≡ []
unfolding match_group span
match_group_digits [] h = refl
match_group_digits (d ∷ ds) h = rw (span-all is_digit (d ∷ ds) h)

pub Passes-reverse : (test : ℕ → Bool) (s : Text) → Passes test s → Passes test (reverse s)
Passes-reverse test [] h = tt
Passes-reverse test (c ∷ s) (p, ps) =
    rw (reverse-cons c s) (All-append _ (reverse s) (c ∷ []) (Passes-reverse test s ps) (p, tt))

-- The number is the digits behind the last byte that is no digit.
pub find_number_lem :
    (front : Text) (c : ℕ) (digits : Text)
    → is_digit c ≡ false
    → Passes is_digit digits
    → find_number (front ++ (c ∷ digits)) ≡ digits
unfolding find_number
find_number_lem front c digits stop h =
    rw
      (
        reverse-append front (c ∷ digits),
        reverse-cons c digits,
        append_assoc (reverse digits) (c ∷ []) (reverse front),
        span-append is_digit (reverse digits) (c ∷ reverse front) (Passes-reverse _ digits h) stop,
      )
      (reverse-reverse digits)

separate_tests :
    (separate_disk_part (text "/dev/sda1") ≡ (text "/dev/sda", text "1"))
    × (separate_disk_part (text "/dev/nvme0n1p12") ≡ (text "/dev/nvme0n1", text "12"))
    × (separate_disk_part (text "/dev/mmcblk0p1") ≡ (text "/dev/mmcblk0p1", text "1"))
unfolding separate_disk_part text
separate_tests = (refl, refl, refl)

pub separate_disk_part_lem :
    (path : Text) → separate_disk_part path ≡ (find_disk path, find_number path)
unfolding separate_disk_part
separate_disk_part_lem path = refl

init_last : (s : Text) {c : ℕ} → get_last? s ≡ some c → (front : Text) × (s ≡ front ++ (c ∷ []))
init_last [] h = cc
init_last (x ∷ []) h = ([], ground arith)
init_last (x ∷ y ∷ s) h = let (front, e) = init_last (y ∷ s) h in (x ∷ front, ap (λ t. x ∷ t) e)

-- The number of a text that ends in digits behind a byte that is no digit
pub find_number-append :
    (base digits : Text) {c : ℕ}
    → get_last? base ≡ some c
    → is_digit c ≡ false
    → Passes is_digit digits
    → find_number (base ++ digits) ≡ digits
find_number-append base digits {c} e stop h =
    let (front, split) = init_last base e in
    rw (split, append_assoc front (c ∷ []) digits) (find_number_lem front c digits stop h)
