-- ===== src/Disk/Table/New.antt =====
-- The partition that `NewPartition` (core/disk/disk.go) goes on with.
use mathlib.Core.Path.{subst}
use albius.Base.{
  ◌∙◌, ◌≡◌, refl, sym, append-nil, List, ◌∷◌, Option, none, some, Bool, inl, inr, true, false, All,
  Text, ℤ, ◌⊎◌, ◌==◌, list_eq, nat_eq, get_last?, if◌then◌else◌, [],
}
use albius.Machine.{Platform, ok, World, Go, pure, throw, index_out_of_range}
use albius.Machine.Returns.{ok-injective, bind-returns, handling-returns}
use albius.Disk.Types.{Partition, Disk}
use albius.Disk.Partition.{filled_path}
use albius.Disk.Table.{with_last, update, last_partition, fill_partition, new_partition}
use albius.Disk.Table.Formats.{
  NewEvent, mkpart-Emits, wait_for_new_partition-Emits, update-Emits, last_partition-Emits,
  fill_partition-Emits, name_if-Emits,
}
use albius.Machine.Emits.{Emits-handling}
use albius.Machine.Logged.{Logged, Logged-bind}
use albius.Disk.Table.Order.{Below, IsSorted, Below-get_last, locate_disk-IsSorted}

-- The table of the disk is ordered; the partition is its last one, whose number none exceeds, and
-- has the path that FillPath gives for this number.
abbrev pub IsHighest : Disk → Partition → Type 0
IsHighest disk part =
    IsSorted disk.partitions
    × (get_last? disk.partitions ≡ some part)
    × (filled_path disk.path part.number ≡ some part.path)
    × All (λ other. Below other part) disk.partitions

get_last-with_last :
    (parts : List Partition) (last part : Partition)
    → get_last? parts ≡ some last
    → get_last? (with_last parts part) ≡ some part
unfolding with_last
get_last-with_last [] last part e = cc e
get_last-with_last (other ∷ []) last part e = refl
get_last-with_last (other ∷ next ∷ []) last part e = refl
get_last-with_last (other ∷ next ∷ more ∷ parts) last part e =
    get_last-with_last (next ∷ more ∷ parts) last part e

All-with_last :
    (a : Partition) (parts : List Partition) (last part : Partition)
    → get_last? parts ≡ some last
    → part.number ≡ last.number
    → All (Below a) parts
    → All (Below a) (with_last parts part)
unfolding with_last
All-with_last a [] last part e n h = cc
All-with_last a (other ∷ []) last part e n (h, _) =
    let same : other ≡ last = cc e in (rw (n, ← same) h, tt)
All-with_last a (other ∷ next ∷ parts) last part e n (h, hs) =
    (h, All-with_last a (next ∷ parts) last part e n hs)

with_last-IsSorted :
    (parts : List Partition) (last part : Partition)
    → get_last? parts ≡ some last
    → part.number ≡ last.number
    → IsSorted parts
    → IsSorted (with_last parts part)
unfolding with_last
with_last-IsSorted [] last part e n h = cc
with_last-IsSorted (other ∷ []) last part e n h = (tt, tt)
with_last-IsSorted (other ∷ next ∷ parts) last part e n (h, hs) = (
  All-with_last other (next ∷ parts) last part e n h,
  with_last-IsSorted (next ∷ parts) last part e n hs,
)

module _ ⦃P : Platform⦄ where
  update-IsSorted :
      (target : Disk) (w : World) {disk : Disk}
      → (update target w).0 ≡ ok disk
      → IsSorted disk.partitions
  unfolding update pure
  update-IsSorted target w {disk} h =
      let (found, hfound, h1) = bind-returns _ _ w h in
      let (_, _, _, _, _, sorted, _) = locate_disk-IsSorted target.path w hfound in
      let same : record found { model = target.model } ≡ disk = ok-injective h1 in
      rw (← same) sorted

  path_returns :
      (last : Partition) (path : Option Text) (w : World) {part : Partition}
      → ((elim path as (λ _. Go Partition) [
        | none ↦ throw index_out_of_range
        | some to ↦ pure (record last { path = to })
      ])
          w).0
        ≡ ok part
      → (part.number ≡ last.number) × (path ≡ some part.path)
  unfolding throw pure
  path_returns last none w h = cc
  path_returns last (some to) w {part} h =
      let same : record last { path = to } ≡ part = ok-injective h in rw (← same) (refl, refl)

  last_partition-returns :
      (base : Text) (found : Option Partition) (w : World) {part : Partition}
      → (last_partition base found w).0 ≡ ok part
      → (last : Partition) × (found ≡ some last)
        × (part.number ≡ last.number)
        × (filled_path base last.number ≡ some part.path)
  unfolding last_partition throw
  last_partition-returns base none w h = cc
  last_partition-returns base (some last) w h =
      let (number, path) = path_returns last (filled_path base last.number) w h in
      (last, refl, number, path)

  if_returns :
      (b : Bool) (part : Partition) (m : Go Partition) (w : World) {done : Partition}
      → ((if b then pure part else m) w).0 ≡ ok done
      → (part ≡ done) ⊎ ((m w).0 ≡ ok done)
  unfolding pure
  if_returns true part m w h = inl (ok-injective h)
  if_returns false part m w h = inr h

  fill_partition-returns :
      (part : Partition) (name fs : Text) (w : World) {done : Partition}
      → (fill_partition part name fs w).0 ≡ ok done
      → (done.number ≡ part.number) × (done.path ≡ part.path)
  unfolding fill_partition pure
  fill_partition-returns part name fs w {done} h = elim (if_returns (fs == []) part _ w h) [
    | inl same ↦ rw (← same) (refl, refl)
    | inr h1 ↦
        let (_, _, h2) = bind-returns _ _ _ h1 in
        let (_, _, h3) = bind-returns _ _ _ h2 in
        let same : record part { filesystem = fs } ≡ done = ok-injective h3 in
        rw (← same) (refl, refl)
  ]

  placed-IsHighest :
      (disk : Disk) (last placed done : Partition)
      → IsSorted disk.partitions
      → get_last? disk.partitions ≡ some last
      → placed.number ≡ last.number
      → filled_path disk.path last.number ≡ some placed.path
      → (done.number ≡ placed.number) × (done.path ≡ placed.path)
      → IsHighest (record disk { partitions = with_last disk.partitions done }) done
  placed-IsHighest disk last placed done sorted e number path (same_number, same_path) =
      let sorted' = with_last-IsSorted disk.partitions last done e (same_number ∙ number) sorted in
      let last' = get_last-with_last disk.partitions last done e in
      (
        sorted',
        last',
        rw (same_number, number, same_path) path,
        Below-get_last (with_last disk.partitions done) done sorted' last',
      )

  -- When NewPartition returns, the table of the disk is ordered, and the partition that it returns
  -- is the last of the table, which no number exceeds, with the path that FillPath gives for this
  -- number. On the way it ran nothing but parted to make a partition on the disk, partprobe, lsblk
  -- and parted to look at the disk, commands that have the path of this partition as a word, and
  -- parted to name the disk and the number that this path is split into.
  pub new_partition-IsHighest :
      (target : Disk) (name fs : Text) (start end : ℤ) (w : World) {disk : Disk} {part : Partition}
      → (new_partition target name fs start end w).0 ≡ ok (disk, part)
      → IsHighest disk part
        × Logged (NewEvent target part.path) w (new_partition target name fs start end w).1
  unfolding new_partition pure
  new_partition-IsHighest target name fs start end w {disk} {part} h =
      let (_, h0, h1) = bind-returns _ _ w h in
      let (_, hseen, h2) = bind-returns _ _ _ h1 in
      let (updated, hupdated, h3) = bind-returns _ _ _ h2 in
      let (placed, hplaced, h4) = bind-returns _ _ _ h3 in
      let (done, hdone, h5) = bind-returns _ _ _ h4 in
      let (_, hnamed, h6) = bind-returns _ _ _ h5 in
      let returned : Disk = record updated { partitions = with_last updated.partitions done } in
      let same : (returned, done) ≡ (disk, part) = ok-injective h6 in
      let sorted = update-IsSorted target _ (handling-returns _ _ _ hupdated) in
      let (last, hlast, number, path) = last_partition-returns _ _ _ hplaced in
      let kept = fill_partition-returns _ _ _ _ hdone in
      let logged =
        Logged-bind {E = NewEvent target done.path} _ _ w _
          (Emits-handling _ _ (mkpart-Emits target done.path name fs start end)) h0
          (Logged-bind _ _ _ _ (Emits-handling _ _ (wait_for_new_partition-Emits target done.path))
            hseen
            (Logged-bind _ _ _ _ (Emits-handling _ _ (update-Emits target done.path)) hupdated (
              Logged-bind _ _ _ _
                (last_partition-Emits target done.path updated.path (get_last? updated.partitions))
                hplaced
                (Logged-bind _ _ _ _
                  (fill_partition-Emits target done.path placed name fs (sym kept.1)) hdone
                  (Logged-bind _ _ _ _ (name_if-Emits target done.path done name refl) hnamed
                    ([], tt, rw append-nil)))))) in
      subst
        (λ p.
          IsHighest p.0 p.1
          × Logged (NewEvent target p.1.path) w (new_partition target name fs start end w).1)
        same (placed-IsHighest updated last placed done sorted hlast number path kept, logged)
