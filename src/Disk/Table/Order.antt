-- ===== src/Disk/Table/Order.antt =====
-- The order of a disk's partitions after `LocateDisk` (core/disk/disk.go).
use mathlib.Core.List.{Perm}
use mathlib.Core.List.Perm
use albius.Base.{
  ◌≡◌, refl, inl, inr, true, false, Bool-cases, Option, none, some, List, [], ◌∷◌, All, Text, ℤ,
  pos, negsuc, int_ltb, arith, get_last?,
}
use albius.Machine.{Platform, ok, World, pure, fail, throw}
use albius.Machine.Returns.{ok-injective, bind-returns}
use albius.Disk.Types.{Partition, Disk}
use albius.Disk.Table.{fill_paths, insert_by_number, sort_by_number, decoded, filled, locate_disk}

-- The number of `a` is not greater than that of `b`.
abbrev pub Below : Partition → Partition → Type 0
Below a b = int_ltb b.number a.number ≡ false

-- No partition stands in front of one with a lower number.
abbrev pub IsSorted : List Partition → Type 0
IsSorted [] = Unit {0}
IsSorted (part ∷ parts) = All (Below part) parts × IsSorted parts

int_ltb_trans : (a b c : ℤ) → int_ltb b a ≡ false → int_ltb c b ≡ false → int_ltb c a ≡ false
int_ltb_trans (pos a) (pos b) (pos c) h k = ground arith
int_ltb_trans (pos a) (pos b) (negsuc c) h k = ground arith
int_ltb_trans (pos a) (negsuc b) c h k = cc
int_ltb_trans (negsuc a) (pos b) (pos c) h k = refl
int_ltb_trans (negsuc a) (pos b) (negsuc c) h k = cc
int_ltb_trans (negsuc a) (negsuc b) (pos c) h k = refl
int_ltb_trans (negsuc a) (negsuc b) (negsuc c) h k = ground arith

int_ltb_asym : (a b : ℤ) → int_ltb a b ≡ true → int_ltb b a ≡ false
int_ltb_asym (pos a) (pos b) h = ground arith
int_ltb_asym (pos a) (negsuc b) h = cc
int_ltb_asym (negsuc a) (pos b) h = refl
int_ltb_asym (negsuc a) (negsuc b) h = ground arith

Below-trans :
    (a b : Partition) (parts : List Partition)
    → Below a b
    → All (Below b) parts
    → All (Below a) parts
Below-trans a b [] h k = tt
Below-trans a b (c ∷ parts) h (hc, k) =
    (int_ltb_trans a.number b.number c.number h hc, Below-trans a b parts h k)

All-insert :
    (Q : Partition → Type 0) (part : Partition) (parts : List Partition)
    → Q part
    → All Q parts
    → All Q (insert_by_number part parts)
unfolding insert_by_number
All-insert Q part [] q h = (q, tt)
All-insert Q part (next ∷ parts) q (hn, h) = elim (Bool-cases (int_ltb next.number part.number)) [
  | inl e ↦ rw e (hn, All-insert Q part parts q h)
  | inr e ↦ rw e (q, (hn, h))
]

insert-IsSorted :
    (part : Partition) (parts : List Partition)
    → IsSorted parts
    → IsSorted (insert_by_number part parts)
unfolding insert_by_number
insert-IsSorted part [] h = (tt, tt)
insert-IsSorted part (next ∷ parts) (hn, h) = elim (Bool-cases (int_ltb next.number part.number)) [
  | inl e ↦ rw e (
    All-insert _ part parts (int_ltb_asym next.number part.number e) hn,
    insert-IsSorted part parts h,
  )
  | inr e ↦ rw e ((e, Below-trans part next parts e hn), (hn, h))
]

insert-Perm :
    (part : Partition) (parts : List Partition) → Perm (insert_by_number part parts) (part ∷ parts)
unfolding insert_by_number
insert-Perm part [] = Perm.refl _
insert-Perm part (next ∷ parts) = elim (Bool-cases (int_ltb next.number part.number)) [
  | inl e ↦ rw e (Perm.trans (Perm.cons next (insert-Perm part parts)) (Perm.swap part next parts))
  | inr e ↦ rw e (Perm.refl _)
]

pub sort-IsSorted : (parts : List Partition) → IsSorted (sort_by_number parts)
unfolding sort_by_number
sort-IsSorted [] = tt
sort-IsSorted (part ∷ parts) = insert-IsSorted part (sort_by_number parts) (sort-IsSorted parts)

pub sort-Perm : (parts : List Partition) → Perm (sort_by_number parts) parts
unfolding sort_by_number
sort-Perm [] = Perm.refl _
sort-Perm (part ∷ parts) =
    Perm.trans (insert-Perm part (sort_by_number parts)) (Perm.cons part (sort-Perm parts))

All-last :
    (Q : Partition → Type 0) (parts : List Partition) {last : Partition}
    → All Q parts
    → get_last? parts ≡ some last
    → Q last
All-last Q [] h e = cc
All-last Q (part ∷ []) {last} (q, h) e = let same : part ≡ last = cc in rw (← same) q
All-last Q (part ∷ next ∷ parts) (q, h) e = All-last Q (next ∷ parts) h e

int_ltb_irrefl : (a : ℤ) → int_ltb a a ≡ false
int_ltb_irrefl (pos a) = ground arith
int_ltb_irrefl (negsuc a) = ground arith

-- No number of a sorted list is greater than that of its last element.
pub Below-get_last :
    (parts : List Partition) (last : Partition)
    → IsSorted parts
    → get_last? parts ≡ some last
    → All (λ part. Below part last) parts
Below-get_last [] last h e = tt
Below-get_last (part ∷ []) last h e =
    let same : part ≡ last = cc in (rw (← same) (int_ltb_irrefl part.number), tt)
Below-get_last (part ∷ next ∷ parts) last (hp, h) e =
    (All-last (Below part) (next ∷ parts) hp e, Below-get_last (next ∷ parts) last h e)

module _ ⦃P : Platform⦄ where
  decoded-returns :
      (name : Text) (report : Option Disk) (w : World) {disk : Disk}
      → (decoded name report w).0 ≡ ok disk
      → report ≡ some disk
  unfolding decoded fail pure
  decoded-returns name none w h = cc
  decoded-returns name (some disk) w h = cc

  filled-returns :
      (raw : Disk) (paths : Option (List Partition)) (w : World) {disk : Disk}
      → (filled raw paths w).0 ≡ ok disk
      → (parts : List Partition) × (paths ≡ some parts)
        × IsSorted disk.partitions
        × Perm disk.partitions parts
  unfolding filled throw pure
  filled-returns raw none w h = cc
  filled-returns raw (some parts) w {disk} h =
      let same : record raw { partitions = sort_by_number parts } ≡ disk = ok-injective h in
      (parts, refl, rw (← same) (sort-IsSorted parts), rw (← same) (sort-Perm parts))

  pub locate_disk-IsSorted :
      (name : Text) (w : World) {disk : Disk}
      → (locate_disk name w).0 ≡ ok disk
      → (out : Text) × (raw : Disk) × (parts : List Partition) × (P.decode_disk out ≡ some raw)
        × (fill_paths raw.path raw.partitions ≡ some parts)
        × IsSorted disk.partitions
        × Perm disk.partitions parts
  unfolding locate_disk
  locate_disk-IsSorted name w h =
      let (o, ho, h1) = bind-returns _ _ w h in
      let (out, hout, h2) = bind-returns _ _ _ h1 in
      let (raw, hraw, h3) = bind-returns _ _ _ h2 in
      let (parts, hparts, hsort, hperm) = filled-returns raw _ _ h3 in
      (out, raw, parts, decoded-returns name _ _ hraw, hparts, hsort, hperm)
