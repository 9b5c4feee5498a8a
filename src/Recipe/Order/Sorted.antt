-- ===== src/Recipe/Order/Sorted.antt =====
-- The loops end, and put every mountpoint behind those that are less deep.
use native.Mathlib.Numerals.{add-one}
use albius.Base.{
  ℕ, zero, suc, ◌+◌, ◌≤◌, ◌<◌, ◌≡◌, refl, ◌⊎◌, inl, inr, some, List, [], ◌∷◌, ◌++◌, length,
  length-append, All, All-append, ltb, ◌==◌, nat_eq, if◌then◌else◌, arith, Bool-cases, append-nil,
}
use albius.Recipe.Types.{Mountpoint}
use albius.Recipe.Order.{depth, at_depth, order_loop, max_depth, order_mountpoints}

le_or_lt : (a b : ℕ) → (a ≤ b) ⊎ (b < a)
le_or_lt a b = grind arith

-- The mountpoints above depth `d`, one depth behind the other
unfoldable below : ℕ → List Mountpoint → List Mountpoint
below zero mnts = []
below (suc d) mnts = below d mnts ++ at_depth d mnts

-- No mountpoint stands before one that is less deep.
abbrev pub IsOrdered : List Mountpoint → Type 0
IsOrdered [] = Unit
IsOrdered (mnt ∷ mnts) = All (λ later. depth mnt ≤ depth later) mnts × IsOrdered mnts

-- How many mountpoints are above depth `d`
count_below : ℕ → List Mountpoint → ℕ
count_below d [] = 0
count_below d (mnt ∷ mnts) = (if ltb (depth mnt) d then 1 else 0) + count_below d mnts

count_below-zero : (mnts : List Mountpoint) → count_below 0 mnts ≡ 0
unfolding count_below
count_below-zero [] = refl
count_below-zero (mnt ∷ mnts) = ground (arith, count_below-zero mnts)

count_below-suc :
    (d : ℕ) (mnts : List Mountpoint)
    → count_below (suc d) mnts ≡ count_below d mnts + length (at_depth d mnts)
unfolding count_below at_depth
count_below-suc d [] = omega arith
count_below-suc d (mnt ∷ mnts) = ground (arith, count_below-suc d mnts)

length-below : (d : ℕ) (mnts : List Mountpoint) → length (below d mnts) ≡ count_below d mnts
unfolding below
length-below zero mnts = rw count_below-zero
length-below (suc d) mnts = omega (
  arith,
  length-append (below d mnts) (at_depth d mnts),
  length-below d mnts,
  count_below-suc d mnts,
)

count_below-max :
    (d : ℕ) (mnts : List Mountpoint) → max_depth mnts < d → count_below d mnts ≡ length mnts
unfolding count_below max_depth
count_below-max d [] h = refl
count_below-max d (mnt ∷ mnts) h = ground (arith, count_below-max d mnts)

count_below-le : (d : ℕ) (mnts : List Mountpoint) → count_below d mnts ≤ length mnts
unfolding count_below
count_below-le d [] = omega arith
count_below-le d (mnt ∷ mnts) = ground (arith, count_below-le d mnts)

-- All are above depth `d` if as many are as there are.
all_below :
    (d : ℕ) (mnts : List Mountpoint)
    → length mnts ≤ count_below d mnts
    → All (λ mnt. depth mnt < d) mnts
unfolding count_below
all_below d [] h = tt
all_below d (mnt ∷ mnts) h = (
  ground (arith, count_below-le d mnts),
  all_below d mnts (ground (arith, count_below-le d mnts)),
)

below_more :
    (d : ℕ) (mnts : List Mountpoint) → length (below d mnts) < length mnts → d ≤ max_depth mnts
below_more d mnts h = elim (le_or_lt d (max_depth mnts)) [
  | inl le ↦ le
  | inr lt ↦ absurd (omega (arith, length-below d mnts, count_below-max d mnts lt))
]

-- From the state after `d` rounds the loop ends, with the mountpoints of some number of rounds.
order_loop_total :
    (fuel d : ℕ) (mnts : List Mountpoint)
    → max_depth mnts + 2 ≤ fuel + d
    → d ≤ max_depth mnts + 1
    → (n : ℕ) × (order_loop fuel d (below d mnts) mnts ≡ some (below n mnts))
      × All (λ mnt. depth mnt < n) mnts
unfolding order_loop below
order_loop_total zero d mnts h small = absurd (omega arith)
order_loop_total (suc fuel) d mnts h small =
    elim (Bool-cases (ltb (length (below d mnts)) (length mnts))) [
      | inl more ↦
          let bound : d ≤ max_depth mnts = below_more d mnts (ground arith) in
          rw (more, add-one) (order_loop_total fuel (suc d) mnts (omega arith) (omega arith))
      | inr done ↦ (d, rw done, all_below d mnts (ground (arith, length-below d mnts)))
    ]

at_depth-append :
    (k : ℕ) (xs ys : List Mountpoint) → at_depth k (xs ++ ys) ≡ at_depth k xs ++ at_depth k ys
unfolding at_depth
at_depth-append k [] ys = refl
at_depth-append k (x ∷ xs) ys = ground (arith, at_depth-append k xs ys)

at_depth_self :
    (k d : ℕ) (mnts : List Mountpoint)
    → at_depth k (at_depth d mnts) ≡ (if k == d then at_depth d mnts else [])
unfolding at_depth
at_depth_self k d [] = ground arith
at_depth_self k d (mnt ∷ mnts) = ground (arith, at_depth_self k d mnts)

at_depth-below :
    (k n : ℕ) (mnts : List Mountpoint)
    → at_depth k (below n mnts) ≡ (if ltb k n then at_depth k mnts else [])
unfolding below
at_depth-below k zero mnts = unfold at_depth in ground arith
at_depth-below k (suc n) mnts =
    rw
      (
        at_depth-append k (below n mnts) (at_depth n mnts),
        at_depth-below k n mnts,
        at_depth_self k n mnts,
      )
      (ground (arith, append-nil (at_depth k mnts)))

at_depth_high :
    (k : ℕ) (mnts : List Mountpoint) → All (λ mnt. depth mnt < k) mnts → at_depth k mnts ≡ []
unfolding at_depth
at_depth_high k [] h = refl
at_depth_high k (mnt ∷ mnts) (lt, h) = ground (arith, at_depth_high k mnts h)

All-lt_trans :
    (n k : ℕ) (mnts : List Mountpoint)
    → n ≤ k
    → All (λ mnt. depth mnt < n) mnts
    → All (λ mnt. depth mnt < k) mnts
All-lt_trans n k [] le h = tt
All-lt_trans n k (mnt ∷ mnts) le (lt, h) = (omega arith, All-lt_trans n k mnts le h)

at_depth-at_depth : (d : ℕ) (mnts : List Mountpoint) → All (λ mnt. depth mnt ≡ d) (at_depth d mnts)
unfolding at_depth
at_depth-at_depth d [] = tt
at_depth-at_depth d (mnt ∷ mnts) = elim (Bool-cases (depth mnt == d)) [
  | inl e ↦ rw e (ground arith, at_depth-at_depth d mnts)
  | inr e ↦ rw e (at_depth-at_depth d mnts)
]

All-of_eq :
    (n : ℕ) (mnts : List Mountpoint)
    → All (λ mnt. depth mnt ≡ n) mnts
    → All (λ mnt. depth mnt < suc n) mnts
All-of_eq n [] h = tt
All-of_eq n (mnt ∷ mnts) (e, h) = (omega arith, All-of_eq n mnts h)

All-le_of_eq :
    (n k : ℕ) (mnts : List Mountpoint)
    → k ≤ n
    → All (λ mnt. depth mnt ≡ n) mnts
    → All (λ mnt. k ≤ depth mnt) mnts
All-le_of_eq n k [] le h = tt
All-le_of_eq n k (mnt ∷ mnts) le (e, h) = (omega arith, All-le_of_eq n k mnts le h)

below_bound : (n : ℕ) (mnts : List Mountpoint) → All (λ mnt. depth mnt < n) (below n mnts)
unfolding below
below_bound zero mnts = tt
below_bound (suc n) mnts =
    All-append _ (below n mnts) (at_depth n mnts)
      (All-lt_trans n (suc n) (below n mnts) (omega arith) (below_bound n mnts))
      (All-of_eq n (at_depth n mnts) (at_depth-at_depth n mnts))

IsOrdered-append :
    (n : ℕ) (xs ys : List Mountpoint)
    → IsOrdered xs
    → All (λ mnt. depth mnt < n) xs
    → All (λ mnt. depth mnt ≡ n) ys
    → IsOrdered (xs ++ ys)
IsOrdered-append n [] [] o lt eq = tt
IsOrdered-append n [] (y ∷ ys) o lt (e, es) =
    (All-le_of_eq n (depth y) ys (omega arith) es, IsOrdered-append n [] ys tt tt es)
IsOrdered-append n (x ∷ xs) ys (le, o) (l, lt) eq = (
  All-append _ xs ys le (All-le_of_eq n (depth x) ys (omega arith) eq),
  IsOrdered-append n xs ys o lt eq,
)

IsOrdered-below : (n : ℕ) (mnts : List Mountpoint) → IsOrdered (below n mnts)
unfolding below
IsOrdered-below zero mnts = tt
IsOrdered-below (suc n) mnts =
    IsOrdered-append n (below n mnts) (at_depth n mnts) (IsOrdered-below n mnts)
      (below_bound n mnts) (at_depth-at_depth n mnts)

-- The loops of SetupMountpoints end for every recipe. In their result no mountpoint stands before
-- one that is less deep, and the mountpoints of each depth are those of the recipe, in its order.
pub order_mountpoints-IsOrdered :
    (mnts : List Mountpoint)
    → (ordered : List Mountpoint) × (order_mountpoints mnts ≡ some ordered)
      × IsOrdered ordered
      × ((d : ℕ) → at_depth d ordered ≡ at_depth d mnts)
unfolding order_mountpoints below
order_mountpoints-IsOrdered mnts =
    let (n, e, all) = order_loop_total (max_depth mnts + 2) 0 mnts (omega arith) (omega arith) in
    (below n mnts, e, IsOrdered-below n mnts, same n all)
  where
    same :
        (n : ℕ)
        → All (λ mnt. depth mnt < n) mnts
        → (d : ℕ) → at_depth d (below n mnts) ≡ at_depth d mnts
    same n all d = elim (le_or_lt n d) [
      | inl le ↦
          rw (at_depth-below d n mnts)
            (ground (arith, at_depth_high d mnts (All-lt_trans n d mnts le all)))
      | inr lt ↦ rw (at_depth-below d n mnts) (ground arith)
    ]
