-- ===== src/Sts/Order/Stable.antt =====
-- The specification of the ordering: a stable insertion sort by a comparison `gt`, in which an
-- element passes only those that it exceeds.
use mathlib.Core.List.{Perm}
use mathlib.Core.List.Perm
use sisop_2012_2c.Shared.{◌≡◌, refl, Bool, true, false, List, [], ◌∷◌, arith, Bool-cases, inl, inr}

-- C's `>` on `int` and on `double`, with NaN too.
pub record IsStrict {A : Type 0} (gt : A → A → Bool) : Type 0 where
  pub asymm : (x y : A) → gt x y ≡ true → gt y x ≡ false
  pub trans : (x y z : A) → gt x y ≡ true → gt y z ≡ true → gt x z ≡ true

module _ {A : Type 0} (gt : A → A → Bool) where
  unfoldable pub insert : A → List A → List A
  insert x [] = x ∷ []
  insert x (y ∷ l) = elim (gt x y) [ true ↦ y ∷ insert x l | false ↦ x ∷ y ∷ l ]

  unfoldable pub stable_sort : List A → List A
  unfolding insert
  stable_sort [] = []
  stable_sort (x ∷ l) = insert x (stable_sort l)

  -- No element exceeds its successor.
  abbrev pub IsOrdered : List A → Type 0
  IsOrdered [] = Unit
  IsOrdered (x ∷ []) = Unit
  IsOrdered (x ∷ y ∷ l) = (gt x y ≡ false) × IsOrdered (y ∷ l)

module _ {A : Type 0} (gt : A → A → Bool) where
  pub insert_comm :
      IsStrict gt
      → (x y : A) (l : List A) → gt x y ≡ true
      → insert gt x (insert gt y l) ≡ insert gt y (insert gt x l)
  unfolding insert
  insert_comm s x y [] h = ground (arith, s.asymm x y h)
  insert_comm s x y (z ∷ l) h =
      ground (arith, s.asymm x y h, s.trans x y z h, insert_comm s x y l h)

  pub stable_sort_of_IsOrdered : (l : List A) → IsOrdered gt l → stable_sort gt l ≡ l
  unfolding stable_sort
  stable_sort_of_IsOrdered [] h = refl
  stable_sort_of_IsOrdered (x ∷ []) h = refl
  stable_sort_of_IsOrdered (x ∷ y ∷ l) h =
      rw (stable_sort_of_IsOrdered (y ∷ l) h.1) (rw (h.0, insert))

  insert-IsOrdered_below :
      IsStrict gt
      → (w x : A) (l : List A) → gt w x ≡ false
      → IsOrdered gt (w ∷ l)
      → IsOrdered gt l
      → IsOrdered gt (w ∷ insert gt x l)
  unfolding insert
  insert-IsOrdered_below s w x [] h k o = (h, tt)
  insert-IsOrdered_below s w x (y ∷ []) h k o = ground (arith, s.asymm x y)
  insert-IsOrdered_below s w x (y ∷ z ∷ l) h k o = elim (Bool-cases (gt x y)) [
    | inl gr ↦ rw (gr, insert) (k.0, insert-IsOrdered_below s y x (z ∷ l) (s.asymm x y gr) o o.1)
    | inr le ↦ rw (le, insert) (h, (le, o))
  ]

  pub insert-IsOrdered :
      IsStrict gt → (x : A) (l : List A) → IsOrdered gt l → IsOrdered gt (insert gt x l)
  unfolding insert
  insert-IsOrdered s x [] o = tt
  insert-IsOrdered s x (y ∷ l) o = elim (Bool-cases (gt x y)) [
    | inl gr ↦ rw (gr, insert) (insert-IsOrdered_below s y x l (s.asymm x y gr) o (tail l o))
    | inr le ↦ rw (le, insert) (le, o)
  ]
    where
      tail : (l : List A) → IsOrdered gt (y ∷ l) → IsOrdered gt l
      tail [] h = tt
      tail (z ∷ l) h = h.1

  pub stable_sort-IsOrdered : IsStrict gt → (l : List A) → IsOrdered gt (stable_sort gt l)
  unfolding stable_sort
  stable_sort-IsOrdered s [] = tt
  stable_sort-IsOrdered s (x ∷ l) =
      insert-IsOrdered s x (stable_sort gt l) (stable_sort-IsOrdered s l)

  insert-perm : (x : A) (l : List A) → Perm (insert gt x l) (x ∷ l)
  unfolding insert
  insert-perm x [] = Perm.refl (x ∷ [])
  insert-perm x (y ∷ l) = elim (Bool-cases (gt x y)) [
    | inl gr ↦ rw (gr, insert) (Perm.trans (Perm.cons y (insert-perm x l)) (Perm.swap x y l))
    | inr le ↦ rw (le, insert) (Perm.refl (x ∷ y ∷ l))
  ]

  pub stable_sort-perm : (l : List A) → Perm (stable_sort gt l) l
  unfolding stable_sort
  stable_sort-perm [] = Perm.refl []
  stable_sort-perm (x ∷ l) =
      Perm.trans (insert-perm x (stable_sort gt l)) (Perm.cons x (stable_sort-perm l))
