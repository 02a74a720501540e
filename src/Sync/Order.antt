-- ===== src/Sync/Order.antt =====
-- Texts in the order of a query's `ORDER BY`.
use kick_channel_role.Prelude.{
  ℕ, zero, suc, ◌≡◌, refl, ◌⊎◌, inl, inr, Bool, true, false, List, [], ◌∷◌,
}
use kick_channel_role.Prelude.Text.{Text}
use kick_channel_role.Sync.{take, insert, order_by}

module _ (collate : Text → Text → Bool) where
  -- `x` comes before the first of the list, if there is one.
  abbrev pub IsBefore : Text → List Text → Type 0
  IsBefore x [] = Unit
  IsBefore x (y ∷ ys) = collate x y ≡ true

  abbrev pub IsSorted : List Text → Type 0
  IsSorted [] = Unit
  IsSorted (x ∷ xs) = IsBefore x xs × IsSorted xs

  pub order_by-eq : (xs : List Text) → IsSorted xs → order_by collate xs ≡ xs
  unfolding order_by insert
  order_by-eq [] h = refl
  order_by-eq (x ∷ []) h = refl
  order_by-eq (x ∷ y ∷ ys) h = rw (order_by-eq (y ∷ ys) h.1, h.0) refl

  take-IsBefore : (x : Text) (n : ℕ) (xs : List Text) → IsBefore x xs → IsBefore x (take n xs)
  take-IsBefore x zero xs h = tt
  take-IsBefore x (suc n) [] h = tt
  take-IsBefore x (suc n) (y ∷ ys) h = h

  pub take-IsSorted : (n : ℕ) (xs : List Text) → IsSorted xs → IsSorted (take n xs)
  take-IsSorted zero xs h = tt
  take-IsSorted (suc n) [] h = tt
  take-IsSorted (suc n) (x ∷ xs) h = (take-IsBefore x n xs h.0, take-IsSorted n xs h.1)

  module _ (total : (x y : Text) → (collate x y ≡ true) ⊎ (collate y x ≡ true)) where
    insert-IsBefore :
        (y x : Text) (ys : List Text)
        → IsBefore y ys
        → collate y x ≡ true
        → IsBefore y (insert collate x ys)
    unfolding insert
    insert-IsBefore y x [] h e = e
    insert-IsBefore y x (z ∷ zs) h e = by_case (collate x z) refl
      where
        by_case : (b : Bool) → collate x z ≡ b → IsBefore y (insert collate x (z ∷ zs))
        by_case true q = rw q e
        by_case false q = rw q h

    later : (x y : Text) → collate x y ≡ false → collate y x ≡ true
    later x y e = elim (total x y) [ inl p ↦ absurd (cc (p, e)) | inr q ↦ q ]

    insert-IsSorted : (x : Text) (ys : List Text) → IsSorted ys → IsSorted (insert collate x ys)
    unfolding insert
    insert-IsSorted x [] h = (tt, tt)
    insert-IsSorted x (y ∷ ys) h = by_case (collate x y) refl (insert-IsSorted x ys h.1)
      where
        by_case :
            (b : Bool)
            → collate x y ≡ b
            → IsSorted (insert collate x ys)
            → IsSorted (insert collate x (y ∷ ys))
        by_case true q r = rw q (q, h)
        by_case false q r = rw q (insert-IsBefore y x ys h.0 (later x y q), r)

    pub order_by-IsSorted : (xs : List Text) → IsSorted (order_by collate xs)
    unfolding order_by
    order_by-IsSorted [] = tt
    order_by-IsSorted (x ∷ xs) = insert-IsSorted x (order_by collate xs) (order_by-IsSorted xs)
