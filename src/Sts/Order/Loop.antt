-- ===== src/Sts/Order/Loop.antt =====
-- The loop of the ordering routines ends, and sorts: the index loop of one pass is `bubble`, and the
-- passes take inversions away until none is left.
use sisop_2012_2c.Shared.{
  ℕ, zero, suc, ◌+◌, ◌-◌, ◌*◌, ◌<◌, ◌≡◌, refl, sym, ap, ◌∙◌, Bool, true, false, ◌&&◌, List, [], ◌∷◌,
  ◌++◌, arith, Bool-cases, inl, inr, length, length-append, append_assoc, insert_idx-append, eq→==,
  ne→==,
}
use sisop_2012_2c.Shared.Outcome.{ok}
use sisop_2012_2c.Commons.{Collections}
use sisop_2012_2c.Commons.Positions.{list_get-append, list_get-append_next, list_remove-append}
use sisop_2012_2c.Sts.Order.{move_after, order_pass, order_loop, order_list}
use sisop_2012_2c.Sts.Order.Stable.{IsStrict, stable_sort, stable_sort_of_IsOrdered}
use sisop_2012_2c.Sts.Order.Bubble.{
  bubble, clean, inversions, inversions-le, stable_sort-bubble, bubble-clean, clean-IsOrdered,
  inversions-bubble_lt,
}

module _ {A : Type 0} ⦃c : Collections⦄ where
  -- Moving on is a swap, at the last pair and before it.
  move_after-swap :
      (pre : List A) (x y : A) (l : List A) (ilimit i : ℕ)
      → i ≡ length pre
      → ilimit ≡ i + suc (length l)
      → move_after ilimit i (pre ++ x ∷ y ∷ l) ≡ ok (pre ++ y ∷ x ∷ l)
  unfolding move_after
  move_after-swap pre x y [] ilimit i e h =
      rw (list_remove-append pre x (y ∷ []) i e, move_after)
        (rw (eq→== ilimit (i + 1) (omega arith))
          (rw (c.add_law, append_assoc pre (y ∷ []) (x ∷ []))))
  move_after-swap pre x y (z ∷ l) ilimit i e h =
      rw (list_remove-append pre x (y ∷ z ∷ l) i e, move_after)
        (rw (ne→== ilimit (i + 1) (omega arith)) (
          rw
            (
              c.add_in_index_law,
              ← append_assoc pre (y ∷ []) (z ∷ l),
              ← append_assoc pre (y ∷ []) (x ∷ z ∷ l),
              next,
            )
            (rw insert_idx-append)))
    where
      next : i + 1 ≡ length (pre ++ y ∷ [])
      next = omega (arith, length-append pre (y ∷ []))

and_false : (b : Bool) → (b && false) ≡ false
and_false true = refl
and_false false = refl

module _ {A : Type 0} ⦃c : Collections⦄ (gt : A → A → Bool) where
  -- One pass from the position behind `pre`, where `x` stands.
  order_pass-bubble :
      (l pre : List A) (x : A) (i ilimit : ℕ) (flag : Bool)
      → i ≡ length pre
      → ilimit ≡ i + length l
      → order_pass gt (length l) i ilimit (pre ++ x ∷ l) flag
        ≡ ok (pre ++ bubble gt x l, clean gt x l && flag)
  unfolding order_pass bubble clean
  order_pass-bubble [] pre x i ilimit flag e h = refl
  order_pass-bubble (y ∷ l) pre x i ilimit flag e h =
      rw (list_get-append pre x (y ∷ l) i e, list_get-append_next pre x y l i e, order_pass)
        (elim (Bool-cases (gt x y)) [
          | inl gr ↦
              rw (gr, bubble, clean)
                (rw
                  (
                    move_after-swap pre x y l ilimit i e h,
                    ← append_assoc pre (y ∷ []) (x ∷ l),
                    ← append_assoc pre (y ∷ []) (bubble gt x l),
                  )
                  (order_pass-bubble l (pre ++ y ∷ []) x (i + 1) ilimit false (next y) (omega arith)
                    ∙ rw and_false))
          | inr le ↦
              rw (le, bubble, clean)
                (rw
                  (← append_assoc pre (x ∷ []) (y ∷ l), ← append_assoc pre (x ∷ []) (bubble gt y l))
                  (order_pass-bubble l (pre ++ x ∷ []) y (i + 1) ilimit flag (next x)
                    (omega arith)))
        ])
    where
      next : (z : A) → i + 1 ≡ length (pre ++ z ∷ [])
      next z = omega (arith, length-append pre (z ∷ []))

  order_pass_empty : order_pass gt (0 - 1) 0 (0 - 1) [] true ≡ ok ([], true)
  unfolding order_pass
  order_pass_empty = refl

  -- The loop, on fuel above the inversions, is the stable sort.
  order_loop-sorts :
      IsStrict gt
      → (fuel : ℕ) (l : List A) → inversions gt l < fuel
      → order_loop gt fuel l ≡ ok (stable_sort gt l)
  unfolding order_loop stable_sort
  order_loop-sorts s zero l h = absurd (omega arith)
  order_loop-sorts s (suc fuel) [] h = rw (c.size_law, order_pass_empty, order_loop) refl
  order_loop-sorts s (suc fuel) (x ∷ l) h =
      rw
        (
          c.size_law,
          pred_length,
          order_pass-bubble l [] x 0 (length l) true refl (omega arith),
          order_loop,
        )
        (elim (Bool-cases (clean gt x l)) [
          | inl done ↦ rw done (
              ap ok (
                bubble-clean gt x l done
                ∙ sym (stable_sort_of_IsOrdered gt (x ∷ l) (clean-IsOrdered gt x l done))))
          | inr more ↦ rw more (
              order_loop-sorts s fuel (bubble gt x l)
                (omega (arith, inversions-bubble_lt gt s x l more))
              ∙ ap ok (stable_sort-bubble gt s x l))
        ])
    where
      pred_length : suc (length l) - 1 ≡ length l
      pred_length = omega arith

  -- The ordering never runs forever and never reads outside the list: it is the stable sort.
  pub order_list-sorts : IsStrict gt → (l : List A) → order_list gt l ≡ ok (stable_sort gt l)
  unfolding order_list
  order_list-sorts s l =
      rw c.size_law
        (order_loop-sorts s (suc (length l * length l)) l (omega (arith, inversions-le gt l)))
