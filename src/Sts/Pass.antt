-- ===== src/Sts/Pass.antt =====
-- What one pass of the scheduler leaves, for each algorithm.
use mathlib.Core.List.{Perm, foldl, reverse_perm}
use mathlib.Core.List.Perm
use sisop_2012_2c.Shared.{◌≡◌, refl, ap, ◌∙◌, List, [], ◌∷◌, ◌++◌, reverse, Bool}
use sisop_2012_2c.Shared.Int.{gtb_ℤ_asymm, gtb_ℤ_trans}
use sisop_2012_2c.Shared.Outcome.{ok}
use sisop_2012_2c.Commons.{Collections, list_add}
use sisop_2012_2c.Doubles.{Doubles}
use sisop_2012_2c.Process.{ProcessImage, Channel, IsCounted, counted, counted_of_IsCounted, enqueue}
use sisop_2012_2c.System.{System}
use sisop_2012_2c.Sts.{
  ordenar_fifo, ordenar_pri, ordenar_spn, order_insert_prio_list, order_insert_spn_list,
  priority_gt, tspn_gt,
}
use sisop_2012_2c.Sts.Drain.{
  Origin, new, resumed, end_of_quantum, end_of_io, QueuesCounted, IsOrder, arrivals, queue_of,
  all_drained, all_drained-empty, drain_queues-all, foldl-list_add, foldl-enqueue, lpl-all_drained,
}
use sisop_2012_2c.Sts.Order.{order_insert}
use sisop_2012_2c.Sts.Order.Stable.{
  IsStrict, IsOrdered, stable_sort, stable_sort-IsOrdered, stable_sort-perm,
}
use sisop_2012_2c.Sts.Order.Ready.{order_insert-sorts}

module _ {D : Type 0} where
  pub priority_gt-IsStrict : ⦃c : Collections⦄ → IsStrict (priority_gt {D = D})
  priority_gt-IsStrict = record {
    asymm = λ p q. gtb_ℤ_asymm p.priority q.priority;
    trans = λ p q r. gtb_ℤ_trans p.priority q.priority r.priority;
  }

module _ {D : Type 0} where
  pub tspn_gt-IsStrict : ⦃c : Collections⦄ ⦃d : Doubles D⦄ → IsStrict (tspn_gt {D = D})
  tspn_gt-IsStrict ⦃d = d⦄ = record {
    asymm = λ p q. d.gt_asymm p.tspn q.tspn;
    trans = λ p q r. d.gt_trans p.tspn q.tspn r.tspn;
  }

-- The queues that the array names are empty, and LPL and its semaphore are these.
abbrev pub Passed :
    {D : Type 0}
    → Origin
    → Origin
    → Origin
    → Origin
    → System D
    → List (ProcessImage D)
    → System D
    → Type 0
Passed a b c d s ready s' =
    (s' ≡ record (all_drained a b c d s) { lpl = counted ready })
    × (queue_of a s' ≡ [])
    × (queue_of b s' ≡ [])
    × (queue_of c s' ≡ [])
    × (queue_of d s' ≡ [])

module _ {D : Type 0} (a b c d : Origin) (s : System D) (ready : List (ProcessImage D)) where
  all_drained-Passed :
      IsOrder a b c d s
      → Passed a b c d s ready (record (all_drained a b c d s) { lpl = counted ready })
  all_drained-Passed o = (
    refl,
    queue_of-lpl a _ _ ∙ empty.0,
    queue_of-lpl b _ _ ∙ empty.1,
    queue_of-lpl c _ _ ∙ empty.2,
    queue_of-lpl d _ _ ∙ empty.3,
  )
    where
      empty :
          (queue_of a (all_drained a b c d s) ≡ [])
          × (queue_of b (all_drained a b c d s) ≡ [])
          × (queue_of c (all_drained a b c d s) ≡ [])
          × (queue_of d (all_drained a b c d s) ≡ [])
      empty = all_drained-empty a b c d s o

      queue_of-lpl :
          (p : Origin) (t : System D) (l : Channel (ProcessImage D))
          → queue_of p (record t { lpl = l }) ≡ queue_of p t
      queue_of-lpl new t l = refl
      queue_of-lpl resumed t l = refl
      queue_of-lpl end_of_quantum t l = refl
      queue_of-lpl end_of_io t l = refl

module _ {D : Type 0} ⦃cl : Collections⦄ (a b c d : Origin) (s : System D) where
  -- FIFO and RR: LPL keeps its order, and the arrivals follow it, queue by queue in the order of the
  -- array; the four queues are left empty.
  pub ordenar_fifo-appends :
      QueuesCounted s
      → IsCounted s.lpl
      → IsOrder a b c d s
      → (s' : System D) × (ordenar_fifo s ≡ ok s')
        × Passed a b c d s (s.lpl.queue ++ arrivals a b c d s) s'
  unfolding ordenar_fifo
  ordenar_fifo-appends h k o = (
    _,
    rw (drain_queues-all enqueue a b c d s s.lpl h o, ordenar_fifo)
        (ap (λ l. ok (record (all_drained a b c d s) { lpl = l }))
          (ap (λ l. foldl enqueue l (arrivals a b c d s)) (counted_of_IsCounted s.lpl k)
            ∙ foldl-enqueue (arrivals a b c d s) s.lpl.queue)),
    all_drained-Passed a b c d s _ o,
  )

-- LPL as the ordering passes leave it: the stable sort of the old entries, turned round, before the
-- arrivals; it is in order, and it holds each process of the two once.
module _ {D : Type 0} (gt : ProcessImage D → ProcessImage D → Bool) where
  abbrev pub ready_after : List (ProcessImage D) → List (ProcessImage D) → List (ProcessImage D)
  ready_after ready arrived = stable_sort gt (reverse ready ++ arrived)

  abbrev pub IsOrderedReady : List (ProcessImage D) → List (ProcessImage D) → Type 0
  IsOrderedReady ready arrived =
      IsOrdered gt (ready_after ready arrived) × Perm (ready_after ready arrived) (ready ++ arrived)

  ready_after-IsOrderedReady :
      IsStrict gt → (ready arrived : List (ProcessImage D)) → IsOrderedReady ready arrived
  ready_after-IsOrderedReady s ready arrived = (
    stable_sort-IsOrdered gt s (reverse ready ++ arrived),
    Perm.trans (stable_sort-perm gt (reverse ready ++ arrived))
        (Perm.append (reverse_perm ready) (Perm.refl arrived)),
  )

module _ {D : Type 0} ⦃cl : Collections⦄ (a b c d : Origin) (s : System D) (x : ProcessImage D)
    (xs : List (ProcessImage D)) (some_arrive : arrivals a b c d s ≡ x ∷ xs) where
  inserted :
      (gt : ProcessImage D → ProcessImage D → Bool)
      → IsStrict gt
      → IsCounted s.lpl
      → order_insert gt (arrivals a b c d s) (all_drained a b c d s).lpl
        ≡ ok (counted (ready_after gt s.lpl.queue (arrivals a b c d s)))
  inserted gt strict k =
      rw (some_arrive, lpl-all_drained a b c d s) (order_insert-sorts gt strict x xs s.lpl k)

  -- PRI, where some process arrives: LPL is in order of priority and holds its old entries and the
  -- arrivals, each once; of equal priorities the old ones come first, in the reverse of the order in
  -- which they stood, and then the arrivals. The four queues are left empty.
  pub ordenar_pri-sorts :
      QueuesCounted s
      → IsCounted s.lpl
      → IsOrder a b c d s
      → (s' : System D) × (ordenar_pri s ≡ ok s')
        × Passed a b c d s (ready_after priority_gt s.lpl.queue (arrivals a b c d s)) s'
        × IsOrderedReady priority_gt s.lpl.queue (arrivals a b c d s)
  unfolding ordenar_pri order_insert_prio_list
  ordenar_pri-sorts h k o = (
    _,
    rw
        (
          drain_queues-all list_add a b c d s [] h o,
          foldl-list_add (arrivals a b c d s) [],
          ordenar_pri,
        )
        (rw (inserted priority_gt priority_gt-IsStrict k, order_insert_prio_list)),
    all_drained-Passed a b c d s _ o,
    ready_after-IsOrderedReady priority_gt priority_gt-IsStrict s.lpl.queue _,
  )

  -- SPN, where some process arrives: the same by the estimate Tspn.
  pub ordenar_spn-sorts :
      ⦃dbl : Doubles D⦄
      → QueuesCounted s
      → IsCounted s.lpl
      → IsOrder a b c d s
      → (s' : System D) × (ordenar_spn s ≡ ok s')
        × Passed a b c d s (ready_after tspn_gt s.lpl.queue (arrivals a b c d s)) s'
        × IsOrderedReady tspn_gt s.lpl.queue (arrivals a b c d s)
  unfolding ordenar_spn order_insert_spn_list
  ordenar_spn-sorts h k o = (
    _,
    rw
        (
          drain_queues-all list_add a b c d s [] h o,
          foldl-list_add (arrivals a b c d s) [],
          ordenar_spn,
        )
        (rw (inserted tspn_gt tspn_gt-IsStrict k, order_insert_spn_list)),
    all_drained-Passed a b c d s _ o,
    ready_after-IsOrderedReady tspn_gt tspn_gt-IsStrict s.lpl.queue _,
  )
