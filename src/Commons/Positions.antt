-- ===== src/Commons/Positions.antt =====
-- The calls of the library at a position that is known from the elements before it.
use sisop_2012_2c.Shared.{
  ℕ, ◌+◌, ◌≡◌, List, [], ◌∷◌, ◌++◌, some, arith, length, length-append, append_assoc,
  get_elem?-append_length, erase_idx-append,
}
use sisop_2012_2c.Commons.{Collections, list_get, list_remove}

module _ {A : Type 0} ⦃c : Collections⦄ where
  pub list_get-append :
      (pre : List A) (x : A) (l : List A) (i : ℕ)
      → i ≡ length pre
      → list_get (pre ++ x ∷ l) i ≡ some x
  list_get-append pre x l i e = rw (c.get_law, e) (get_elem?-append_length pre x l)

  pub list_get-append_next :
      (pre : List A) (x y : A) (l : List A) (i : ℕ)
      → i ≡ length pre
      → list_get (pre ++ x ∷ y ∷ l) (i + 1) ≡ some y
  list_get-append_next pre x y l i e =
      rw (← append_assoc pre (x ∷ []) (y ∷ l))
        (list_get-append (pre ++ x ∷ []) y l (i + 1) (omega (arith, length-append pre (x ∷ []))))

  pub list_remove-append :
      (pre : List A) (x : A) (l : List A) (i : ℕ)
      → i ≡ length pre
      → list_remove (pre ++ x ∷ l) i ≡ (some x, pre ++ l)
  list_remove-append pre x l i e = rw (
    c.remove_law (pre ++ x ∷ l) i (omega (arith, length-append pre (x ∷ l))),
    e,
    get_elem?-append_length pre x l,
    erase_idx-append pre x l,
  )
