-- ===== src/Disk/Partition/Paths.antt =====
-- `FillPath` of core/disk/partition.go, and `SeparateDiskPart` of core/util/util.go as its inverse.
use mathlib.Core.List.{append_assoc}
use albius.Base.{
  ℕ, ◌≡◌, refl, ap, true, false, some, [], ◌∷◌, ◌++◌, append-nil, All, Text, text, format,
  get_last?, is_digit, length, length-append, ◌≢◌, pos, format_int, arith,
}
use albius.Base.Decimal.{format_nat-cons, format_nat-All}
use albius.Base.{format_nat}
use albius.Util.{is_lower, is_alpha, separate_disk_part}
use albius.Util.Paths.{
  Passes, Stops, find_disk_lem, match_group_lem, match_group_digits, find_number-append,
  find_number_lem, separate_disk_part_lem,
}
use albius.Disk.Partition.{filled_path}

-- A device name of letters alone, as `/dev/sda`
abbrev pub letter_disk : ℕ → Text → Text
letter_disk c letters = text "/dev/" ++ (c ∷ letters)

-- A device name that goes on with digits, as `/dev/mmcblk0`
abbrev pub digit_disk : ℕ → Text → Text → Text
digit_disk c letters digits = text "/dev/" ++ ((c ∷ letters) ++ digits)

-- A device name with two numbers, as `/dev/nvme0n1`
abbrev pub namespace_disk : ℕ → Text → Text → ℕ → Text → Text
namespace_disk c letters first mid second =
    text "/dev/" ++ ((c ∷ letters) ++ (first ++ (mid ∷ second)))

get_last?-append : (s : Text) (c : ℕ) (t : Text) → get_last? (s ++ (c ∷ t)) ≡ get_last? (c ∷ t)
get_last?-append [] c t = refl
get_last?-append (x ∷ []) c t = refl
get_last?-append (x ∷ y ∷ s) c t = get_last?-append (y ∷ s) c t

-- The last byte of a text whose bytes all pass a property
get_last?-All :
    (P : ℕ → Type 0) (c : ℕ) (t : Text)
    → All P (c ∷ t)
    → (d : ℕ) × (get_last? (c ∷ t) ≡ some d) × P d
get_last?-All P c [] (h, _) = (c, refl, h)
get_last?-All P c (d ∷ t) (_, h) = get_last?-All P d t h

alpha_not_digit : (c : ℕ) → is_alpha c ≡ true → is_digit c ≡ false
alpha_not_digit c h = ground arith

-- A base that ends in a letter is followed by the number, one that ends in a digit by `p` first.
filled_path_letter :
    (base : Text) (n : ℕ) {c : ℕ}
    → get_last? base ≡ some c
    → is_digit c ≡ false
    → filled_path base (pos n) ≡ some (base ++ format_nat n)
unfolding filled_path format format_int
filled_path_letter base n e h = rw (e, h, append-nil (format_nat n))

filled_path_digit :
    (base : Text) (n : ℕ) {c : ℕ}
    → get_last? base ≡ some c
    → is_digit c ≡ true
    → filled_path base (pos n) ≡ some (base ++ (b'p' ∷ format_nat n))
unfolding filled_path format format_int text
filled_path_digit base n e h = rw (e, h, append-nil (format_nat n))

digits_stop : (n : ℕ) → Stops is_alpha (format_nat n)
digits_stop n = let (d, s, e) = format_nat-cons n in rw e (head d s (rw e at (format_nat-All n)))
  where
    head : (d : ℕ) (s : Text) → Passes is_digit (d ∷ s) → is_alpha d ≡ false
    head d s (h, _) = ground arith

last_letter :
    (c : ℕ) (letters : Text)
    → Passes is_alpha (c ∷ letters)
    → (d : ℕ) × (get_last? (letter_disk c letters) ≡ some d) × (is_digit d ≡ false)
last_letter c letters h =
    let (d, e, alpha) = get_last?-All (λ b. is_alpha b ≡ true) c letters h in
    (d, rw (get_last?-append (text "/dev/") c letters) e, alpha_not_digit d alpha)

-- A partition of a disk such as `/dev/sda` has the path of the disk and its number, and is taken
-- apart into the two.
pub separate-filled_path_letters :
    (c : ℕ) (letters : Text) (n : ℕ)
    → Passes is_alpha (c ∷ letters)
    → (path : Text) × (filled_path (letter_disk c letters) (pos n) ≡ some path)
      × (separate_disk_part path ≡ (letter_disk c letters, format_nat n))
separate-filled_path_letters c letters n h =
    let (d, last, stop) = last_letter c letters h in
    (
      letter_disk c letters ++ format_nat n,
      filled_path_letter (letter_disk c letters) n last stop,
      rw (
        separate_disk_part_lem,
        find_number-append (letter_disk c letters) (format_nat n) last stop (format_nat-All n),
        append_assoc (text "/dev/") (c ∷ letters) (format_nat n),
        find_disk_lem c letters (format_nat n) h (digits_stop n),
        match_group_digits (format_nat n) (format_nat-All n),
        append-nil letters,
      ),
    )

last_digit :
    (front : Text) (d : ℕ) (digits : Text)
    → Passes is_digit (d ∷ digits)
    → (e : ℕ) × (get_last? (front ++ (d ∷ digits)) ≡ some e) × (is_digit e ≡ true)
last_digit front d digits h =
    let (e, last, digit) = get_last?-All (λ b. is_digit b ≡ true) d digits h in
    (e, rw (get_last?-append front d digits) last, digit)

digit_not_alpha : (d : ℕ) → is_digit d ≡ true → is_alpha d ≡ false
digit_not_alpha d h = ground arith

namespace_last :
    (c : ℕ) (letters : Text) (d : ℕ) (first : Text) (mid e : ℕ) (second : Text)
    → Passes is_digit (e ∷ second)
    → (b : ℕ) × (get_last? (namespace_disk c letters (d ∷ first) mid (e ∷ second)) ≡ some b)
      × (is_digit b ≡ true)
namespace_last c letters d first mid e second h =
    let (b, last, digit) = last_digit (mid ∷ []) e second h in
    (
      b,
      rw
          (
            get_last?-append (text "/dev/") c (letters ++ ((d ∷ first) ++ (mid ∷ (e ∷ second)))),
            get_last?-append (c ∷ letters) d (first ++ (mid ∷ (e ∷ second))),
            get_last?-append (d ∷ first) mid (e ∷ second),
          )
          last,
      digit,
    )

-- A partition of a disk such as `/dev/nvme0n1` has a `p` between the disk's path and its number,
-- and is taken apart into the two.
pub separate-filled_path_namespace :
    (c : ℕ) (letters : Text) (d : ℕ) (first : Text) (mid e : ℕ) (second : Text) (n : ℕ)
    → Passes is_alpha (c ∷ letters)
    → Passes is_digit (d ∷ first)
    → is_lower mid ≡ true
    → Passes is_digit (e ∷ second)
    → let disk = namespace_disk c letters (d ∷ first) mid (e ∷ second) in
      (path : Text) × (filled_path disk (pos n) ≡ some path)
      × (separate_disk_part path ≡ (disk, format_nat n))
separate-filled_path_namespace c letters d first mid e second n hl hd hm he =
    let disk = namespace_disk c letters (d ∷ first) mid (e ∷ second) in
    let (b, last, digit) = namespace_last c letters d first mid e second he in
    let regroup : disk ++ (b'p' ∷ format_nat n)
        ≡ text "/dev/"
          ++ ((c ∷ letters) ++ ((d ∷ first) ++ (mid ∷ ((e ∷ second) ++ (b'p' ∷ format_nat n))))) =
      simp append_assoc in
    (
      disk ++ (b'p' ∷ format_nat n),
      filled_path_digit disk n last digit,
      rw (
        separate_disk_part_lem,
        find_number_lem disk b'p' (format_nat n) refl (format_nat-All n),
        regroup,
        find_disk_lem c letters _ hl (digit_not_alpha d hd.0),
        match_group_lem mid d e first second (b'p' ∷ format_nat n) hd hm he refl,
      ),
    )

-- A disk such as `/dev/mmcblk0` has one number. Its partitions have a `p` and their number behind
-- it, and what is found as their disk is the whole path of the partition, never the disk.
pub separate-filled_path_digits :
    (c : ℕ) (letters : Text) (d : ℕ) (first : Text) (n : ℕ)
    → Passes is_alpha (c ∷ letters)
    → Passes is_digit (d ∷ first)
    → let disk = digit_disk c letters (d ∷ first) in
      let path = disk ++ (text "p" ++ format_nat n) in
      (filled_path disk (pos n) ≡ some path)
      × (separate_disk_part path ≡ (path, format_nat n))
      × (path ≢ disk)
unfolding text
separate-filled_path_digits c letters d first n hl hd =
    let disk = digit_disk c letters (d ∷ first) in
    let (b, last, digit) = last_digit (c ∷ letters) d first hd in
    let (e, s, cons) = format_nat-cons n in
    let number : Passes is_digit (e ∷ s) = rw cons at (format_nat-All n) in
    let regroup : disk ++ (b'p' ∷ (e ∷ s))
        ≡ text "/dev/" ++ ((c ∷ letters) ++ ((d ∷ first) ++ (b'p' ∷ ((e ∷ s) ++ [])))) =
      simp (append_assoc, append-nil) in
    (
      filled_path_digit disk n {c = b}
          (rw (get_last?-append (text "/dev/") c (letters ++ (d ∷ first))) last) digit,
      rw
          (
            separate_disk_part_lem,
            find_number_lem disk b'p' (format_nat n) refl (format_nat-All n),
            cons,
          )
          (rw regroup (
            rw
              (
                find_disk_lem c letters _ hl (digit_not_alpha d hd.0),
                match_group_lem b'p' d e first s [] hd refl number tt,
              )
              (simp append-nil))),
      λ same. longer disk b'p' (format_nat n) same,
    )
  where
    longer : (s : Text) (x : ℕ) (t : Text) → s ++ (x ∷ t) ≢ s
    longer s x t same = absurd (omega (arith, length-append s (x ∷ t), ap length same))
