-- ===== src/Config/Reading.antt =====
-- What a reading of the configuration does to the queues array and to the ready processes.
use sisop_2012_2c.Shared.{
  ℕ, suc, ◌≡◌, refl, sym, ap, ◌∙◌, List, [], ◌∷◌, codes, arith, length, ◌<◌, ◌⊎◌, inl, inr, true,
  Bool-cases, zero,
}
use sisop_2012_2c.Shared.Int.{gtb_ℤ_asymm, gtb_ℤ_trans}
use sisop_2012_2c.Shared.Outcome.{ok}
use sisop_2012_2c.Commons.{Collections}
use sisop_2012_2c.Doubles.{Doubles}
use sisop_2012_2c.Process.{IsCounted, counted}
use sisop_2012_2c.System.{System, QueueEntry}
use sisop_2012_2c.Sts.{order_insert_prio_list, order_insert_spn_list, priority_gt, tspn_gt}
use sisop_2012_2c.Sts.Pass.{priority_gt-IsStrict, tspn_gt-IsStrict}
use sisop_2012_2c.Sts.Order.Stable.{
  IsStrict, IsOrdered, stable_sort, stable_sort-IsOrdered, stable_sort_of_IsOrdered,
}
use sisop_2012_2c.Sts.Order.Bubble.{
  bubble, clean, inversions, inversions_four, length-bubble, stable_sort-bubble, bubble-clean,
  clean-IsOrdered, inversions-bubble_lt,
}
use sisop_2012_2c.Sts.Order.Ready.{order_insert-nil}
use sisop_2012_2c.Config.{
  Config, entry_gt, reorder_pass, reorder_loop, reorder_queues_array_priority, read_priorities,
  read_fixed, reorder_ready, configuration_reader,
}

entry_gt-IsStrict : IsStrict entry_gt
entry_gt-IsStrict = record {
  asymm = λ a b. gtb_ℤ_asymm a.priority b.priority;
  trans = λ a b c. gtb_ℤ_trans a.priority b.priority c.priority;
}

-- One pass over four entries is the pass over their list.
reorder_pass-bubble :
    (a b c d : QueueEntry)
    → reorder_pass 3 0 (a ∷ b ∷ c ∷ d ∷ []) true
      ≡ ok (bubble entry_gt a (b ∷ c ∷ d ∷ []), clean entry_gt a (b ∷ c ∷ d ∷ []))
unfolding reorder_pass bubble clean
reorder_pass-bubble a b c d = ground arith

reorder_loop-sorts :
    (fuel : ℕ) (array : List QueueEntry)
    → length array ≡ 4
    → inversions entry_gt array < fuel
    → reorder_loop fuel array ≡ ok (stable_sort entry_gt array)
unfolding reorder_loop
reorder_loop-sorts zero array four h = absurd (omega arith)
reorder_loop-sorts (suc fuel) (a ∷ b ∷ c ∷ d ∷ []) four h =
    rw (reorder_pass-bubble a b c d, reorder_loop)
      (elim (Bool-cases (clean entry_gt a (b ∷ c ∷ d ∷ []))) [
        | inl done ↦ rw done (
            ap ok (
              bubble-clean entry_gt a (b ∷ c ∷ d ∷ []) done
              ∙ sym (
                  stable_sort_of_IsOrdered entry_gt _
                    (clean-IsOrdered entry_gt a (b ∷ c ∷ d ∷ []) done))))
        | inr more ↦ rw more (
            reorder_loop-sorts fuel (bubble entry_gt a (b ∷ c ∷ d ∷ []))
              (length-bubble entry_gt a (b ∷ c ∷ d ∷ []))
              (omega
                (arith, inversions-bubble_lt entry_gt entry_gt-IsStrict a (b ∷ c ∷ d ∷ []) more))
            ∙ ap ok (stable_sort-bubble entry_gt entry_gt-IsStrict a (b ∷ c ∷ d ∷ [])))
      ])
reorder_loop-sorts (suc fuel) _ four h = absurd (omega arith)

-- The sort of the queues array ends, within its four entries: they end in order of priority, and
-- entries of equal priority keep theirs.
pub reorder_queues_array_priority-sorts :
    (a b c d : QueueEntry)
    → reorder_queues_array_priority (a ∷ b ∷ c ∷ d ∷ [])
        ≡ ok (stable_sort entry_gt (a ∷ b ∷ c ∷ d ∷ []))
      × IsOrdered entry_gt (stable_sort entry_gt (a ∷ b ∷ c ∷ d ∷ []))
unfolding reorder_queues_array_priority
reorder_queues_array_priority-sorts a b c d = (
  reorder_loop-sorts 7 (a ∷ b ∷ c ∷ d ∷ []) refl (omega (arith, inversions_four entry_gt a b c d)),
  stable_sort-IsOrdered entry_gt entry_gt-IsStrict (a ∷ b ∷ c ∷ d ∷ []),
)

module _ {D : Type 0} ⦃c : Collections⦄ ⦃dbl : Doubles D⦄ (config : Config D) (s : System D) where
  sorted :
      (p q r t : QueueEntry)
      → s.settings.queues_array ≡ p ∷ q ∷ r ∷ t ∷ []
      → reorder_queues_array_priority (read_priorities config s.settings.queues_array)
        ≡ ok (stable_sort entry_gt (read_priorities config (p ∷ q ∷ r ∷ t ∷ [])))
  sorted p q r t e = rw e ((reorder_queues_array_priority-sorts _ _ _ _).0)

  reorder_ready-loses :
      IsCounted s.lpl
      → (config.alg ≡ codes "PRI") ⊎ (config.alg ≡ codes "SPN")
      → reorder_ready config.alg s ≡ ok (record s { lpl = counted [] })
  unfolding reorder_ready order_insert_prio_list order_insert_spn_list
  reorder_ready-loses h (inl pri) =
      rw (pri, order_insert-nil priority_gt priority_gt-IsStrict s.lpl h, reorder_ready)
  reorder_ready-loses h (inr spn) =
      rw (spn, order_insert-nil tspn_gt tspn_gt-IsStrict s.lpl h, reorder_ready)

  -- Where the algorithm is PRI or SPN, every process that was ready is lost when the configuration is
  -- read: LPL ends empty, and its semaphore at 0.
  pub configuration_reader-loses :
      (p q r t : QueueEntry)
      → s.settings.queues_array ≡ p ∷ q ∷ r ∷ t ∷ []
      → IsCounted s.lpl
      → (config.alg ≡ codes "PRI") ⊎ (config.alg ≡ codes "SPN")
      → (s' : System D) × (configuration_reader config s ≡ ok s') × (s'.lpl ≡ counted [])
  unfolding configuration_reader
  configuration_reader-loses p q r t e h alg = (
    record s {
      lpl = counted [];
      settings = read_fixed config (record (s.settings) {
        alg = config.alg;
        queues_array = stable_sort entry_gt (read_priorities config (p ∷ q ∷ r ∷ t ∷ []));
        sent_time = config.int_value (codes "SENT_TIME");
      });
    },
    rw (reorder_ready-loses h alg, sorted p q r t e, configuration_reader),
    refl,
  )
