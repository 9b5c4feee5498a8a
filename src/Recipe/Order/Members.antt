-- ===== src/Recipe/Order/Members.antt =====
-- The loops of SetupMountpoints (core/recipe.go) add no mountpoint.
use albius.Base.{
  ℕ, zero, suc, ◌+◌, ◌≡◌, ◌⊎◌, inl, inr, Bool-cases, some, List, [], ◌∷◌, ◌++◌, Among, length, ltb,
  ◌==◌, nat_eq,
}
use albius.Recipe.Types.{Mountpoint}
use albius.Recipe.Order.{depth, at_depth, order_loop, order_mountpoints}

at_depth-Among :
    (d : ℕ) (mnts : List Mountpoint) (mnt : Mountpoint)
    → Among mnt (at_depth d mnts)
    → Among mnt mnts
unfolding at_depth
at_depth-Among d [] mnt h = h
at_depth-Among d (other ∷ mnts) mnt h = elim (Bool-cases (depth other == d)) [
  | inl e ↦ elim (rw (at_depth, e) at h) [
    | inl same ↦ inl same
    | inr among ↦ inr (at_depth-Among d mnts mnt among)
  ]
  | inr e ↦ inr (at_depth-Among d mnts mnt (rw (at_depth, e) at h))
]

append-Among :
    (mnt : Mountpoint) (xs ys : List Mountpoint)
    → Among mnt (xs ++ ys)
    → Among mnt xs ⊎ Among mnt ys
append-Among mnt [] ys h = inr h
append-Among mnt (x ∷ xs) ys (inl same) = inl (inl same)
append-Among mnt (x ∷ xs) ys (inr among) = elim (append-Among mnt xs ys among) [
  | inl a ↦ inl (inr a)
  | inr b ↦ inr b
]

order_loop-Among :
    (fuel d : ℕ) (ordered mnts result : List Mountpoint)
    → ((mnt : Mountpoint) → Among mnt ordered → Among mnt mnts)
    → order_loop fuel d ordered mnts ≡ some result
    → (mnt : Mountpoint) → Among mnt result
    → Among mnt mnts
unfolding order_loop
order_loop-Among zero d ordered mnts result h e mnt among = cc e
order_loop-Among (suc fuel) d ordered mnts result h e mnt among =
    elim (Bool-cases (ltb (length ordered) (length mnts))) [
      | inl more ↦
          order_loop-Among fuel (d + 1) (ordered ++ at_depth d mnts) mnts result
            (λ other a. elim (append-Among other ordered (at_depth d mnts) a) [
              | inl old ↦ h other old
              | inr new ↦ at_depth-Among d mnts other new
            ])
            (rw (order_loop, more) at e) mnt among
      | inr done ↦
          let same : ordered ≡ result = cc (rw (order_loop, done) at e) in h mnt (rw same among)
    ]

pub order_mountpoints-Among :
    (mnts ordered : List Mountpoint)
    → order_mountpoints mnts ≡ some ordered
    → (mnt : Mountpoint) → Among mnt ordered
    → Among mnt mnts
unfolding order_mountpoints
order_mountpoints-Among mnts ordered e =
    order_loop-Among _ 0 [] mnts ordered (λ mnt none_there. absurd none_there) e
