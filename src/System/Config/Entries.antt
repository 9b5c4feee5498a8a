-- ===== src/System/Config/Entries.antt =====
-- GrubConfig of core/system/grub.go as a map: its keys, and the order of its entries.
use mathlib.Core.List.{Permᴰ}
use mathlib.Core.Path.{subst}
use albius.Base.{
  ◌++◌, sym, ◌≡◌, refl, ap, inl, inr, ◌∙◌, true, false, Bool-cases, ==_refl, none, some, [], ◌∷◌,
  Text, All, ◌==◌, list_eq, nat_eq, list_beq_sound, if◌then◌else◌,
}
use albius.Base.Splitting.{Lacks}
use albius.System.Config.{GrubConfig, lookup, set_key, is_skipped}

-- No key stands twice.
abbrev pub IsUnique : GrubConfig → Type 0
IsUnique [] = Unit {0}
IsUnique ((k, v) ∷ config) = (lookup k config ≡ none) × IsUnique config

-- A key that does not begin a comment, and no text that ends the key or the line too early
abbrev pub IsEntry : Text × Text → Type 0
IsEntry (k, v) =
    (is_skipped (k ++ b'=' ∷ []) ≡ false) × Lacks b'=' k × Lacks b'\n' k × Lacks b'\n' v

-- A text that is another one's equal is not equal to a third that the other is not equal to.
other_key : (j k key : Text) → (j == key) ≡ true → (j == k) ≡ false → (k == key) ≡ false
other_key j k key d e = elim (Bool-cases (k == key)) [
  | inl f ↦
      let same : j ≡ k = list_beq_sound j key d ∙ sym (list_beq_sound k key f) in
      cc (same, ==_refl k)
  | inr f ↦ f
]

pub lookup-set_key :
    (key k v : Text) (config : GrubConfig)
    → lookup key (set_key k v config) ≡ (if k == key then some v else lookup key config)
unfolding lookup set_key
lookup-set_key key k v [] = refl
lookup-set_key key k v ((j, u) ∷ config) = elim (Bool-cases (j == k)) [
  | inl e ↦
      rw (e, list_beq_sound j k e) (elim (Bool-cases (k == key)) [ inl d ↦ rw d | inr d ↦ rw d ])
  | inr e ↦
      rw (e, lookup-set_key key k v config)
        (elim (Bool-cases (j == key)) [ inl d ↦ rw (d, other_key j k key d e) | inr d ↦ rw d ])
]

pub set_key-IsUnique :
    (k v : Text) (config : GrubConfig) → IsUnique config → IsUnique (set_key k v config)
unfolding set_key lookup
set_key-IsUnique k v [] h = (refl, tt)
set_key-IsUnique k v ((j, u) ∷ config) (hj, h) = elim (Bool-cases (j == k)) [
  | inl e ↦ rw e (rw (← list_beq_sound j k e) hj, h)
  | inr e ↦ rw e (
    rw (lookup-set_key j k v config, other_key j k j (==_refl j) e) hj,
    set_key-IsUnique k v config h,
  )
]

pub set_key-All :
    (Q : Text × Text → Type 0) (k v : Text) (config : GrubConfig)
    → Q (k, v)
    → All Q config
    → All Q (set_key k v config)
unfolding set_key
set_key-All Q k v [] q h = (q, tt)
set_key-All Q k v ((j, u) ∷ config) q (hj, h) = elim (Bool-cases (j == k)) [
  | inl e ↦ rw e (q, h)
  | inr e ↦ rw e (hj, set_key-All Q k v config q h)
]

-- A map with no key twice, with the other one's entries.
abbrev pub IsSame : GrubConfig → GrubConfig → Type 0
IsSame xs ys = IsUnique ys × ((key : Text) → lookup key xs ≡ lookup key ys)

swap_entries :
    (a b : Text × Text) (l : GrubConfig) → IsUnique (a ∷ b ∷ l) → IsSame (a ∷ b ∷ l) (b ∷ a ∷ l)
unfolding lookup
swap_entries (j, u) (k, v) l (ha, (hb, h)) = elim (Bool-cases (k == j)) [
  | inl e ↦ cc (rw e at ha)
  | inr e ↦
      let e' = other_key k j k (==_refl k) e in
      let absent_j : lookup j l ≡ none = rw e at ha in
      (
        (rw e' hb, (absent_j, h)),
        λ key. elim (Bool-cases (j == key)) [
          | inl d ↦ rw (d, other_key j k key d e')
          | inr d ↦ rw d
        ],
      )
]

-- The entries in another order are the same map.
pub Permᴰ-lookup : {xs ys : GrubConfig} → Permᴰ xs ys → IsUnique xs → IsSame xs ys
unfolding lookup
Permᴰ-lookup Permᴰ.nil u = (tt, λ key. refl)
Permᴰ-lookup {xs = (j, u) ∷ l} (Permᴰ.cons e p) (hj, h) =
    let (v, same) = Permᴰ-lookup p h in
    rw (← e)
      ((sym (same j) ∙ hj, v), λ key. ap (λ found. if j == key then some u else found) (same key))
Permᴰ-lookup {xs = a ∷ b ∷ l} {ys = a' ∷ b' ∷ l'} (Permᴰ.swap e d) u =
    subst (λ x. IsSame (a ∷ b ∷ l) (x ∷ b' ∷ l)) d
      (subst (λ y. IsSame (a ∷ b ∷ l) (b ∷ y ∷ l)) e (swap_entries a b l u))
Permᴰ-lookup (Permᴰ.trans p q) u =
    let (v, h) = Permᴰ-lookup p u in let (w, k) = Permᴰ-lookup q v in (w, λ key. h key ∙ k key)

pub Permᴰ-All : (Q : Text × Text → Type 0) {xs ys : GrubConfig} → Permᴰ xs ys → All Q xs → All Q ys
Permᴰ-All Q Permᴰ.nil h = h
Permᴰ-All Q (Permᴰ.cons e p) (h, hs) = (subst Q e h, Permᴰ-All Q p hs)
Permᴰ-All Q (Permᴰ.swap e d) (h, (g, hs)) = (subst Q d g, (subst Q e h, hs))
Permᴰ-All Q (Permᴰ.trans p q) h = Permᴰ-All Q q (Permᴰ-All Q p h)
