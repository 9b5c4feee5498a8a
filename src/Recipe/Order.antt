-- ===== src/Recipe/Order.antt =====
-- The order of mounting: the first loops of `SetupMountpoints` of core/recipe.go.
pub mod Sorted
pub mod Members
use albius.Base.{
  ℕ, zero, suc, ◌+◌, Bool, Option, none, some, List, [], ◌∷◌, ◌++◌, length, Text, count_byte, ltb,
  ◌==◌, nat_eq, list_eq, if◌then◌else◌,
}
use Prim.Native.Nat.{max}
use albius.Recipe.Types.{Mountpoint, slash}

-- The number of slashes of the target, 0 for the root
unfoldable pub depth : Mountpoint → ℕ
depth mnt = if mnt.target == slash then 0 else count_byte b'/' mnt.target

-- One round of the inner loop: the mountpoints whose depth is `d`, in the recipe's order
unfoldable pub at_depth : ℕ → List Mountpoint → List Mountpoint
at_depth d [] = []
at_depth d (mnt ∷ mnts) = let rest = at_depth d mnts in if depth mnt == d then mnt ∷ rest else rest

-- The outer loop, `for len(ordered) < len(recipe.Mountpoints)`; `none` if the fuel runs out
unfoldable pub order_loop : ℕ → ℕ → List Mountpoint → List Mountpoint → Option (List Mountpoint)
order_loop zero d ordered mnts = none
order_loop (suc fuel) d ordered mnts =
    let rest = order_loop fuel (d + 1) (ordered ++ at_depth d mnts) mnts in
    if ltb (length ordered) (length mnts) then rest else some ordered

-- A bound on the depths
unfoldable pub max_depth : List Mountpoint → ℕ
max_depth [] = 0
max_depth (mnt ∷ mnts) = max (depth mnt) (max_depth mnts)

-- `ordered_mountpoints` after the loops
unfoldable pub order_mountpoints : List Mountpoint → Option (List Mountpoint)
order_mountpoints mnts = order_loop (max_depth mnts + 2) 0 [] mnts
