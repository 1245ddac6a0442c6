-- ===== src/Execution/Stack.antt =====
-- The stack of calls when a function has made a call.
use sisop_2012_2c.Shared.{
  ◌-◌, ◌≡◌, refl, ap, ◌∙◌, List, [], ◌∷◌, ◌++◌, append-nil, append_assoc, length, length-append,
  arith,
}
use sisop_2012_2c.Shared.Outcome.{ok}
use sisop_2012_2c.Commons.{Collections}
use sisop_2012_2c.Commons.Positions.{list_remove-append}
use sisop_2012_2c.Process.{Frame}
use sisop_2012_2c.Execution.{move_all, reorder_stack}

module _ ⦃c : Collections⦄ where
  move_all-append :
      (stack new_stack : List Frame)
      → move_all (length stack) stack new_stack ≡ ok (new_stack ++ stack)
  unfolding move_all
  move_all-append [] new_stack = rw append-nil
  move_all-append (f ∷ stack) new_stack =
      rw (move_all, list_remove-append [] f stack 0 refl, c.add_law)
        (move_all-append stack (new_stack ++ f ∷ [])
          ∙ ap ok (append_assoc new_stack (f ∷ []) stack))

  -- The element that ran goes to the bottom of the stack, the one on top of it is taken off and runs,
  -- and the others keep their order.
  pub reorder_stack-rotates :
      (stack : List Frame) (top element : Frame)
      → reorder_stack (stack ++ top ∷ []) element ≡ ok (element ∷ stack, top)
  unfolding reorder_stack
  reorder_stack-rotates stack top element =
      rw
        (
          c.size_law (stack ++ top ∷ []),
          list_remove-append stack top [] _ last,
          append-nil,
          reorder_stack,
        )
        (rw (c.size_law stack, c.add_law, move_all-append stack (element ∷ [])))
    where
      last : length (stack ++ top ∷ []) - 1 ≡ length stack
      last = omega (arith, length-append stack (top ∷ []))
