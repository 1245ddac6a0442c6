-- ===== src/Sts/Order/Ready.antt =====
-- What the ordering routines leave in LPL.
use mathlib.Core.List.{reverse-cons}
use sisop_2012_2c.Shared.{
  ◌≡◌, refl, ◌∙◌, Bool, List, [], ◌∷◌, ◌++◌, reverse, arith, length, append_assoc, append-nil,
}
use sisop_2012_2c.Shared.Outcome.{ok}
use sisop_2012_2c.Commons.{Collections}
use sisop_2012_2c.Process.{Channel, IsCounted, counted, counted_of_IsCounted, enqueue-counted}
use sisop_2012_2c.Sts.Order.{take_ready, give_back, order_insert}
use sisop_2012_2c.Sts.Order.Stable.{IsStrict, stable_sort}
use sisop_2012_2c.Sts.Order.Loop.{order_list-sorts}

module _ {A : Type 0} ⦃c : Collections⦄ where
  -- Each entry goes before the first of the arrivals, so the order of LPL is turned round.
  take_ready-reverse :
      (q : List A) (p : A) (ps : List A)
      → take_ready (length q) (counted q) (p ∷ ps) ≡ ok (counted [], reverse q ++ p ∷ ps)
  unfolding take_ready
  take_ready-reverse [] p ps = refl
  take_ready-reverse (x ∷ q) p ps =
      rw (c.pop_law, c.add_in_index_law, take_ready)
        (take_ready-reverse q x (p ∷ ps)
          ∙ rw (reverse-cons x q, append_assoc (reverse q) (x ∷ []) (p ∷ ps)))

  -- With no arrival there is no element to insert before, and the entries are dropped.
  take_ready-nil : (q : List A) → take_ready (length q) (counted q) [] ≡ ok (counted [], [])
  unfolding take_ready
  take_ready-nil [] = refl
  take_ready-nil (x ∷ q) = rw (c.pop_law, c.add_in_index_law, take_ready) (take_ready-nil q)

  give_back-append : (l q : List A) → give_back (length l) l (counted q) ≡ ok (counted (q ++ l))
  unfolding give_back
  give_back-append [] q = rw append-nil
  give_back-append (x ∷ l) q =
      rw (c.remove_law (x ∷ l) 0 (omega arith), enqueue-counted, give_back)
        (give_back-append l (q ++ x ∷ []) ∙ rw append_assoc)

module _ {A : Type 0} ⦃c : Collections⦄ (gt : A → A → Bool) (strict : IsStrict gt) where
  -- With an arrival, LPL ends as the stable sort of its old entries, turned round, before the
  -- arrivals; the semaphore counts it, and no path faults or hangs.
  pub order_insert-sorts :
      (p : A) (ps : List A) (lpl : Channel A)
      → IsCounted lpl
      → order_insert gt (p ∷ ps) lpl ≡ ok (counted (stable_sort gt (reverse lpl.queue ++ p ∷ ps)))
  unfolding order_insert
  order_insert-sorts p ps lpl h =
      rw
        (
          counted_of_IsCounted lpl h,
          c.size_law,
          take_ready-reverse lpl.queue p ps,
          order_list-sorts gt strict,
          c.size_law,
          order_insert,
        )
        (give_back-append (stable_sort gt (reverse lpl.queue ++ p ∷ ps)) [])

  -- Without an arrival every process of LPL is lost, and the semaphore is 0.
  pub order_insert-nil :
      (lpl : Channel A) → IsCounted lpl → order_insert gt [] lpl ≡ ok (counted [])
  unfolding order_insert stable_sort
  order_insert-nil lpl h =
      rw
        (
          counted_of_IsCounted lpl h,
          c.size_law,
          take_ready-nil lpl.queue,
          order_list-sorts gt strict,
          c.size_law,
          order_insert,
        )
        (give_back-append [] [])
