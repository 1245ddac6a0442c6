-- ===== src/Sts/Accounting.antt =====
-- A round of the scheduler keeps the agreement of queues and semaphores.
use mathlib.Core.Path.{subst}
use sisop_2012_2c.Shared.{
  ◌≡◌, refl, sym, ap, ◌∙◌, inl, inr, Bool, true, false, ◌||◌, List, [], ◌∷◌, ◌++◌, reverse,
  List-cases, arith, if◌then◌else◌,
}
use sisop_2012_2c.Shared.Int.{pos, eqb_ℤ}
use sisop_2012_2c.Shared.Outcome.{Outcome, ok, waits, exits, sem_wait-cases}
use sisop_2012_2c.Commons.{Collections, list_add}
use sisop_2012_2c.Doubles.{Doubles}
use sisop_2012_2c.Process.{ProcessImage, IsCounted, counted}
use sisop_2012_2c.System.{System, QueueEntry}
use sisop_2012_2c.System.Consistent.{IsConsistent}
use sisop_2012_2c.Sts.{
  str_switch, sts_round, ordenar_fifo, ordenar_pri, ordenar_spn, order_insert_prio_list,
  order_insert_spn_list, priority_gt, tspn_gt,
}
use sisop_2012_2c.Sts.Drain.{
  Origin, new, resumed, end_of_quantum, end_of_io, IsOrder, QueuesCounted, drained, all_drained,
  arrivals, drain_queues-all, foldl-list_add, lpl-all_drained,
}
use sisop_2012_2c.Sts.Order.{order_insert}
use sisop_2012_2c.Sts.Order.Stable.{IsStrict, stable_sort}
use sisop_2012_2c.Sts.Order.Ready.{order_insert-sorts, order_insert-nil}
use sisop_2012_2c.Sts.Pass.{ordenar_fifo-appends, priority_gt-IsStrict, tspn_gt-IsStrict}

module _ {D : Type 0} (array : List QueueEntry) where
  drained-IsConsistent :
      (o : Origin) (s : System D) → IsConsistent array s → IsConsistent array (drained o s)
  drained-IsConsistent new s (settings, lpn, lpr, lfq, lfio, lpl, lpb, lfifo, sts) =
      (settings, refl, lpr, lfq, lfio, lpl, lpb, lfifo, omega (arith, sts))
  drained-IsConsistent resumed s (settings, lpn, lpr, lfq, lfio, lpl, lpb, lfifo, sts) =
      (settings, lpn, refl, lfq, lfio, lpl, lpb, lfifo, omega (arith, sts))
  drained-IsConsistent end_of_quantum s (settings, lpn, lpr, lfq, lfio, lpl, lpb, lfifo, sts) =
      (settings, lpn, lpr, refl, lfio, lpl, lpb, lfifo, omega (arith, sts))
  drained-IsConsistent end_of_io s (settings, lpn, lpr, lfq, lfio, lpl, lpb, lfifo, sts) =
      (settings, lpn, lpr, lfq, refl, lpl, lpb, lfifo, omega (arith, sts))

  pub QueuesCounted-of_IsConsistent : (s : System D) → IsConsistent array s → QueuesCounted s
  QueuesCounted-of_IsConsistent s (settings, lpn, lpr, lfq, lfio, lpl, lpb, lfifo, sts) = elim [
    | new ↦ lpn
    | resumed ↦ lpr
    | end_of_quantum ↦ lfq
    | end_of_io ↦ lfio
  ]

  ready-IsConsistent :
      (s : System D) (ready : List (ProcessImage D))
      → IsConsistent array s
      → IsConsistent array (record s { lpl = counted ready })
  ready-IsConsistent s ready (settings, lpn, lpr, lfq, lfio, lpl, lpb, lfifo, sts) =
      (settings, lpn, lpr, lfq, lfio, refl, lpb, lfifo, sts)

  pub passed-IsConsistent :
      (a b c d : Origin) (s : System D) (ready : List (ProcessImage D))
      → IsConsistent array s
      → IsConsistent array (record (all_drained a b c d s) { lpl = counted ready })
  passed-IsConsistent a b c d s ready h =
      let s1 = drained a s in
      let s2 = drained b s1 in
      let s3 = drained c s2 in
      ready-IsConsistent (drained d s3) ready (
        drained-IsConsistent d s3
          (drained-IsConsistent c s2 (drained-IsConsistent b s1 (drained-IsConsistent a s h))))

  -- What a round comes to: it waits, it exits, or it gives a state where queues and semaphores agree.
  pub data Ends : Outcome (System D) → Type 0 where
    waiting : Ends waits
    exiting : Ends exits
    passing : (s' : System D) → IsConsistent array s' → Ends (ok s')

  Ends-of_eq : (m : Outcome (System D)) (s' : System D) → m ≡ ok s' → IsConsistent array s' → Ends m
  Ends-of_eq m s' e h = subst Ends (sym e) (passing s' h)

  Ends-if : (b : Bool) {x y : Outcome (System D)} → Ends x → Ends y → Ends (if b then x else y)
  Ends-if true h k = h
  Ends-if false h k = k

module _ {D : Type 0} ⦃cl : Collections⦄ (a b c d : Origin) (s : System D) where
  -- With arrivals or without, the ordering ends with a queue that its semaphore counts.
  order_insert-counted :
      (gt : ProcessImage D → ProcessImage D → Bool)
      → IsStrict gt
      → IsCounted s.lpl
      → (ready : List (ProcessImage D)) × (order_insert gt
            (arrivals a b c d s)
            (all_drained a b c d s).lpl
          ≡ ok (counted ready))
  order_insert-counted gt strict h = elim (List-cases (arrivals a b c d s)) [
    | inl none_arrives ↦
        ([], rw (none_arrives, lpl-all_drained a b c d s) (order_insert-nil gt strict s.lpl h))
    | inr (x, xs, some_arrive) ↦ (
      stable_sort gt (reverse s.lpl.queue ++ x ∷ xs),
      rw (some_arrive, lpl-all_drained a b c d s) (order_insert-sorts gt strict x xs s.lpl h),
    )
  ]

  pub ordenar_pri-passes :
      QueuesCounted s
      → IsCounted s.lpl
      → IsOrder a b c d s
      → (ready : List (ProcessImage D)) × (ordenar_pri s
          ≡ ok (record (all_drained a b c d s) { lpl = counted ready }))
  unfolding ordenar_pri order_insert_prio_list
  ordenar_pri-passes h k o =
      let (ready, e) = order_insert-counted priority_gt priority_gt-IsStrict k in
      (
        ready,
        rw
            (
              drain_queues-all list_add a b c d s [] h o,
              foldl-list_add (arrivals a b c d s) [],
              ordenar_pri,
            )
            (rw (e, order_insert_prio_list)),
      )

  pub ordenar_spn-passes :
      ⦃dbl : Doubles D⦄
      → QueuesCounted s
      → IsCounted s.lpl
      → IsOrder a b c d s
      → (ready : List (ProcessImage D)) × (ordenar_spn s
          ≡ ok (record (all_drained a b c d s) { lpl = counted ready }))
  unfolding ordenar_spn order_insert_spn_list
  ordenar_spn-passes h k o =
      let (ready, e) = order_insert-counted tspn_gt tspn_gt-IsStrict k in
      (
        ready,
        rw
            (
              drain_queues-all list_add a b c d s [] h o,
              foldl-list_add (arrivals a b c d s) [],
              ordenar_spn,
            )
            (rw (e, order_insert_spn_list)),
      )

module _ {D : Type 0} ⦃cl : Collections⦄ ⦃dbl : Doubles D⦄ (array : List QueueEntry)
    (a b c d : Origin) (s : System D) where
  pub sts_round-Ends : IsOrder a b c d s → IsConsistent array s → Ends array (sts_round s)
  unfolding sts_round
  sts_round-Ends o h =
      let (settings, lpn, lpr, lfq, lfio, lpl, lpb, lfifo, sts) = h in
      let counts = QueuesCounted-of_IsConsistent array s h in
      elim (sem_wait-cases s.sts_in_empty) [
        | inl nothing ↦ rw nothing waiting
        | inr (n, more, taken) ↦ rw taken (
            Ends-if array
              (eqb_ℤ (str_switch s.settings.alg) (pos 1)
                || eqb_ℤ (str_switch s.settings.alg) (pos 2))
              (let (s', e, p) = ordenar_fifo-appends a b c d s counts lpl o in
                Ends-of_eq array (ordenar_fifo s) _ (e ∙ ap ok p.0)
                  (passed-IsConsistent array a b c d s _ h))
              (Ends-if array (eqb_ℤ (str_switch s.settings.alg) (pos 3))
                (let (ready, e) = ordenar_pri-passes a b c d s counts lpl o in
                  Ends-of_eq array (ordenar_pri s) _ e
                    (passed-IsConsistent array a b c d s ready h))
                (Ends-if array (eqb_ℤ (str_switch s.settings.alg) (pos 4))
                  (let (ready, e) = ordenar_spn-passes a b c d s counts lpl o in
                    Ends-of_eq array (ordenar_spn s) _ e
                      (passed-IsConsistent array a b c d s ready h))
                  exiting)))
      ]
