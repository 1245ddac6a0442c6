-- ===== src/Sts/Order/Bubble.antt =====
-- One pass of the bubble sort over the list's own structure: `x` is the element that is carried.
use sisop_2012_2c.Shared.{
  ℕ, suc, ◌+◌, ◌*◌, ◌≤◌, ◌<◌, ◌≡◌, refl, ap, Bool, true, false, List, [], ◌∷◌, arith, Bool-cases,
  inl, inr, length,
}
use sisop_2012_2c.Sts.Order.Stable.{IsStrict, IsOrdered, insert, stable_sort, insert_comm}

module _ {A : Type 0} (gt : A → A → Bool) where
  unfoldable pub bubble : A → List A → List A
  bubble x [] = x ∷ []
  bubble x (y ∷ l) = elim (gt x y) [ true ↦ y ∷ bubble x l | false ↦ x ∷ bubble y l ]

  -- No pair was out of order.
  unfoldable pub clean : A → List A → Bool
  clean x [] = true
  clean x (y ∷ l) = elim (gt x y) [ true ↦ false | false ↦ clean y l ]

  -- How many elements of the list `x` exceeds, and how many pairs of it are out of order.
  exceeded : A → List A → ℕ
  exceeded x [] = 0
  exceeded x (y ∷ l) = elim (gt x y) [ true ↦ suc (exceeded x l) | false ↦ exceeded x l ]

  pub inversions : List A → ℕ
  inversions [] = 0
  inversions (x ∷ l) = exceeded x l + inversions l

module _ {A : Type 0} (gt : A → A → Bool) where
  pub stable_sort-bubble :
      IsStrict gt → (x : A) (l : List A) → stable_sort gt (bubble gt x l) ≡ stable_sort gt (x ∷ l)
  unfolding bubble stable_sort
  stable_sort-bubble s x [] = refl
  stable_sort-bubble s x (y ∷ l) = elim (Bool-cases (gt x y)) [
    | inl gr ↦
        rw (gr, bubble)
          (rw (stable_sort-bubble s x l) (rw (insert_comm gt s x y (stable_sort gt l) gr)))
    | inr le ↦ rw (le, bubble) (ap (insert gt x) (stable_sort-bubble s y l))
  ]

  pub bubble-clean : (x : A) (l : List A) → clean gt x l ≡ true → bubble gt x l ≡ x ∷ l
  unfolding bubble clean
  bubble-clean x [] h = refl
  bubble-clean x (y ∷ l) h = ground (arith, bubble-clean y l)

  pub clean-IsOrdered : (x : A) (l : List A) → clean gt x l ≡ true → IsOrdered gt (x ∷ l)
  unfolding clean
  clean-IsOrdered x [] h = tt
  clean-IsOrdered x (y ∷ l) h = ground (arith, clean-IsOrdered y l)

  exceeded-bubble : (z x : A) (l : List A) → exceeded gt z (bubble gt x l) ≡ exceeded gt z (x ∷ l)
  unfolding bubble exceeded
  exceeded-bubble z x [] = refl
  exceeded-bubble z x (y ∷ l) = ground (arith, exceeded-bubble z x l, exceeded-bubble z y l)

  inversions-bubble_le :
      IsStrict gt → (x : A) (l : List A) → inversions gt (bubble gt x l) ≤ inversions gt (x ∷ l)
  unfolding bubble inversions exceeded
  inversions-bubble_le s x [] = omega arith
  inversions-bubble_le s x (y ∷ l) = ground (
    arith,
    s.asymm x y,
    exceeded-bubble y x l,
    exceeded-bubble x y l,
    inversions-bubble_le s x l,
    inversions-bubble_le s y l,
  )

  pub inversions-bubble_lt :
      IsStrict gt
      → (x : A) (l : List A) → clean gt x l ≡ false
      → inversions gt (bubble gt x l) < inversions gt (x ∷ l)
  unfolding bubble clean inversions exceeded
  inversions-bubble_lt s x [] h = cc
  inversions-bubble_lt s x (y ∷ l) h = ground (
    arith,
    s.asymm x y,
    exceeded-bubble y x l,
    exceeded-bubble x y l,
    inversions-bubble_le s x l,
    inversions-bubble_lt s y l,
  )

  exceeded-le : (x : A) (l : List A) → exceeded gt x l ≤ length l
  unfolding exceeded
  exceeded-le x [] = omega arith
  exceeded-le x (y ∷ l) = ground (arith, exceeded-le x l)

  pub inversions-le : (l : List A) → inversions gt l ≤ length l * length l
  unfolding inversions
  inversions-le [] = omega arith
  inversions-le (x ∷ l) = grind (arith, exceeded-le x l, inversions-le l)

  pub length-bubble : (x : A) (l : List A) → length (bubble gt x l) ≡ suc (length l)
  unfolding bubble
  length-bubble x [] = refl
  length-bubble x (y ∷ l) = ground (arith, length-bubble x l, length-bubble y l)

  pub inversions_four : (a b c d : A) → inversions gt (a ∷ b ∷ c ∷ d ∷ []) ≤ 6
  unfolding inversions
  inversions_four a b c d = omega (
    arith,
    exceeded-le a (b ∷ c ∷ d ∷ []),
    exceeded-le b (c ∷ d ∷ []),
    exceeded-le c (d ∷ []),
    exceeded-le d [],
  )
