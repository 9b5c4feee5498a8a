-- ===== src/Disk/Images/Pulling.antt =====
-- The loop of OCISetup (core/disk/filesystem.go) that pulls the image.
use albius.Base.{
  ℕ, zero, suc, ◌<◌, ◌≤◌, ◌≡◌, refl, ◌∙◌, List, [], ◌∷◌, ◌++◌, append_assoc, Text, text, arith,
}
use albius.Machine.{Platform, called, ok, World, Go, pure, ◌>>=◌, perform}
use albius.Disk.Images.{Reply, got, refused, Pulled, Images, pull, pull_rounds, pull_four}

-- A list of `n` copies
abbrev pub copies {ℓ} : {A : Type ℓ} → ℕ → A → List A
copies zero a = []
copies (suc n) a = a ∷ copies n a

module _ ⦃P : Platform⦄ ⦃I : Images⦄ where
  -- The machine after the image was pulled `k` times
  abbrev pub after_pulls : ℕ → Text → Text → P.State → P.State
  after_pulls zero source name s = s
  after_pulls (suc k) source name s = after_pulls k source name (I.pull_image source name s).1

  -- The image was pulled after at most so many calls.
  abbrev pub IsPulled : ℕ → Text → Text → World → Go (Reply Pulled) → Type 0
  IsPulled most source name w m =
      (pulled : Pulled) × (w' : World) × (n : ℕ) × (n ≤ most)
      × (m w ≡ (ok (got pulled), w'))
      × (w'.log ≡ w.log ++ copies n (called (text "PullImage") (source ∷ name ∷ [])))

  -- What a round does with the reply
  after_reply : ℕ → Text → Text → Reply Pulled → Go (Reply Pulled)
  after_reply n source name (got pulled) = pure (got pulled)
  after_reply n source name (refused why) = pull_rounds n source name (refused why)

  after_reply-IsPulled :
      (n k : ℕ) (source name : Text) (reply : Reply Pulled) (w w1 : World)
      → w1.log ≡ w.log ++ (called (text "PullImage") (source ∷ name ∷ []) ∷ [])
      → ((last : Reply Pulled) → IsPulled (suc k) source name w1 (pull_rounds n source name last))
      → IsPulled (suc (suc k)) source name w (λ v. after_reply n source name reply w1)
  unfolding after_reply pure
  after_reply-IsPulled n k source name (got pulled) w w1 did h =
      (pulled, w1, 1, omega arith, refl, did)
  after_reply-IsPulled n k source name (refused why) w w1 did h =
      let (pulled, w', m, le, e, did') = h (refused why) in
      (pulled, w', suc m, omega arith, e, did' ∙ rw (did, append_assoc))

  pull_rounds-suc :
      (n : ℕ) (source name : Text) (last : Reply Pulled) (w : World)
      → pull_rounds (suc n) source name last w
        ≡ after_reply n source name (I.pull_image source name w.state).0 (pull source name w).1
  unfolding pull_rounds pull perform ◌>>=◌ after_reply
  pull_rounds-suc n source name last w = elim (I.pull_image source name w.state).0 [
    | got pulled ↦ refl
    | refused why ↦ refl
  ]

  pull_rounds-IsPulled :
      (n k : ℕ) (source name : Text) (last : Reply Pulled) (pulled : Pulled) (w : World)
      → k < n
      → (I.pull_image source name (after_pulls k source name w.state)).0 ≡ got pulled
      → IsPulled (suc k) source name w (pull_rounds n source name last)
  unfolding pull perform after_reply pure
  pull_rounds-IsPulled zero k source name last pulled w lt e = absurd (omega arith)
  pull_rounds-IsPulled (suc n) zero source name last pulled w lt e =
      rw (pull_rounds-suc n source name last w, e)
        (pulled, (pull source name w).1, 1, omega arith, refl, refl)
  pull_rounds-IsPulled (suc n) (suc k) source name last pulled w lt e =
      rw (pull_rounds-suc n source name last w) (
        after_reply-IsPulled n k source name (I.pull_image source name w.state).0 w
          (pull source name w).1 refl
          (λ last.
            pull_rounds-IsPulled n k source name last pulled (pull source name w).1 (omega arith)
              e))

  -- When one of the first four attempts to pull an image would succeed, the loop of OCISetup
  -- gets an image, and it pulls no more often than up to that attempt.
  pub pull_four-IsPulled :
      (k : ℕ) (source name : Text) (pulled : Pulled) (w : World)
      → k < 4
      → (I.pull_image source name (after_pulls k source name w.state)).0 ≡ got pulled
      → IsPulled (suc k) source name w (pull_four source name)
  unfolding pull_four
  pull_four-IsPulled k source name pulled w lt e =
      pull_rounds-IsPulled 4 k source name (refused []) pulled w lt e
