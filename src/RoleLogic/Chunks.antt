-- ===== src/RoleLogic/Chunks.antt =====
-- The chunks of an upload: src/services/rolelogic.rs, `user_ids.chunks(CHUNK_SIZE)`.
use kick_channel_role.Prelude.{
  ℕ, zero, suc, ◌-◌, ◌≤◌, ◌≡◌, refl, ap, ◌∙◌, List, [], ◌∷◌, ◌++◌, length, All, arith,
}
use kick_channel_role.RoleLogic.Upload.{push, chunks_from, chunks}

module _ {A : Type 0} where
  abbrev pub concat : List (List A) → List A
  concat [] = []
  concat (c ∷ cs) = c ++ concat cs

  -- Neither empty nor over the size.
  abbrev pub Fits : ℕ → List A → Type 0
  Fits size c = (1 ≤ length c) × (length c ≤ size)

  concat-push : (x : A) (cs : List (List A)) → concat (push x cs) ≡ x ∷ concat cs
  unfolding push
  concat-push x [] = refl
  concat-push x (c ∷ cs) = refl

  concat-chunks_from : (size room : ℕ) (xs : List A) → concat (chunks_from size room xs) ≡ xs
  unfolding chunks_from
  concat-chunks_from size room [] = refl
  concat-chunks_from size zero (x ∷ xs) =
      concat-push x (chunks_from size (size - 1) xs)
      ∙ ap (λ l. x ∷ l) (concat-chunks_from size (size - 1) xs)
  concat-chunks_from size (suc room) (x ∷ xs) =
      concat-push x (chunks_from size room xs) ∙ ap (λ l. x ∷ l) (concat-chunks_from size room xs)

  -- The first chunk is within the room that is left, and may be empty; the others fit.
  abbrev Opens : ℕ → ℕ → List (List A) → Type 0
  Opens size room [] = Unit
  Opens size room (c ∷ cs) = (length c ≤ room) × All (Fits size) cs

  Opens-push :
      (size room : ℕ) (x : A) (cs : List (List A))
      → Opens size room cs
      → Opens size (suc room) (push x cs)
  unfolding push
  Opens-push size room x [] h = (omega arith, tt)
  Opens-push size room x (c ∷ cs) h = (omega (arith, h.0), h.1)

  push-Fits :
      (size room : ℕ) (x : A) (cs : List (List A))
      → suc room ≤ size
      → Opens size room cs
      → All (Fits size) (push x cs)
  unfolding push
  push-Fits size room x [] r h = ((omega arith, omega (arith, r)), tt)
  push-Fits size room x (c ∷ cs) r h = ((omega arith, omega (arith, r, h.0)), h.1)

  chunks_from-Opens :
      (size room : ℕ) (xs : List A)
      → 1 ≤ size
      → room ≤ size
      → Opens size room (chunks_from size room xs)
  unfolding chunks_from
  chunks_from-Opens size room [] s r = (omega arith, tt)
  chunks_from-Opens size zero (x ∷ xs) s r = (
    omega arith,
    push-Fits size (size - 1) x _ (omega (arith, s))
        (chunks_from-Opens size (size - 1) xs s (omega arith)),
  )
  chunks_from-Opens size (suc room) (x ∷ xs) s r =
      Opens-push size room x _ (chunks_from-Opens size room xs s (omega (arith, r)))

  pub concat-chunks : (size : ℕ) (xs : List A) → concat (chunks size xs) ≡ xs
  unfolding chunks
  concat-chunks size [] = refl
  concat-chunks size (x ∷ xs) = concat-chunks_from size size (x ∷ xs)

  pub chunks-Fits : (size : ℕ) (xs : List A) → 1 ≤ size → All (Fits size) (chunks size xs)
  unfolding chunks chunks_from
  chunks-Fits zero xs s = absurd (omega (arith, s))
  chunks-Fits (suc n) [] s = tt
  chunks-Fits (suc n) (x ∷ xs) s =
      push-Fits (suc n) n x _ (omega arith) (chunks_from-Opens (suc n) n xs s (omega arith))
