-- ===== src/Threads/Waiting.antt =====
-- A ready process under FIFO or RR waits its turn, and no longer: the dispatcher takes the first of
-- LPL, the scheduler puts others behind, and no other thread touches LPL.
use mathlib.Core.Path.{subst}
use sisop_2012_2c.Shared.{
  ℕ, ◌+◌, ◌≡◌, refl, sym, ap, ◌∙◌, Bool, List, [], ◌∷◌, ◌++◌, append_assoc, append-nil, length,
  length-append, drop, arith,
}
use sisop_2012_2c.Commons.{Collections, Strings}
use sisop_2012_2c.Doubles.{Doubles}
use sisop_2012_2c.Process.{ProcessImage, Channel, counted}
use sisop_2012_2c.System.{System, Settings, QueueEntry}
use sisop_2012_2c.System.Consistent.{IsConsistent}
use sisop_2012_2c.System.Ready.{Unmoved}
use sisop_2012_2c.Lts.Ready.{lts_event-Unmoved, lts_new_take-Unmoved, lts_new_admit-Unmoved}
use sisop_2012_2c.Io.Ready.{io_take-Unmoved, io_finish-Unmoved}
use sisop_2012_2c.Procer.{procer_round, dispatch}
use sisop_2012_2c.Procer.Ready.{procer_round-takes, procer_round-next}
use sisop_2012_2c.Sts.Drain.{Origin, IsOrder, IsOrder-at, arrivals}
use sisop_2012_2c.Sts.Ready.{IsFifo, sts_round-appends}
use sisop_2012_2c.Threads.Signals.{signal_handler-kept}
use sisop_2012_2c.Threads.{
  Step, lts_conex, lts_new_first, lts_new_second, sts, procer, io_first, io_second, signalled,
  Steps, stay, next,
}
use sisop_2012_2c.Threads.Reachable.{Step-IsConsistent}

-- What stands behind two fronts of one length is the same.
append-cancel :
    {A : Type 0} (xs ys us vs : List A) → length xs ≡ length ys → xs ++ us ≡ ys ++ vs → us ≡ vs
append-cancel [] [] us vs l e = e
append-cancel [] (y ∷ ys) us vs l e = absurd (omega (arith, l))
append-cancel (x ∷ xs) [] us vs l e = absurd (omega (arith, l))
append-cancel {A} (x ∷ xs) (y ∷ ys) us vs l e =
    append-cancel xs ys us vs (omega (arith, l)) (ap (λ (q : List A). drop 1 q) e)

module _ {D : Type 0} ⦃c : Collections⦄ ⦃st : Strings⦄ ⦃dbl : Doubles D⦄ where
  -- The rounds of the dispatcher among the steps.
  abbrev pub taken_by : {s t : System D} → Step s t → ℕ
  taken_by (procer fuel signals k) = 1
  taken_by (lts_conex e actions k) = 0
  taken_by (lts_new_first k) = 0
  taken_by (lts_new_second k) = 0
  taken_by (sts k) = 0
  taken_by (io_first k) = 0
  taken_by (io_second i k) = 0
  taken_by (signalled g k) = 0

  abbrev pub dispatches : {s t : System D} → Steps s t → ℕ
  dispatches stay = 0
  dispatches (next before step) = dispatches before + taken_by step

  -- LPL after a step: what the dispatcher has taken is off its front, and some have come behind.
  abbrev Moved : System D → ℕ → System D → Type 0
  Moved s n t =
      (taken behind : List (ProcessImage D)) × (length taken ≡ n)
      × (s.lpl.queue ++ behind ≡ taken ++ t.lpl.queue)
      × (t.settings ≡ s.settings)

  Moved-of_Unmoved : (s t : System D) → Unmoved s.lpl s.settings t → Moved s 0 t
  Moved-of_Unmoved s t (lpl, settings) = (
    [],
    [],
    refl,
    append-nil s.lpl.queue ∙ ap (λ (l : Channel (ProcessImage D)). l.queue) (sym lpl),
    settings,
  )

  Step-Moved :
      (array : List QueueEntry) (a b c d : Origin) (s t : System D) (step : Step s t)
      → IsOrder a b c d s
      → IsConsistent array s
      → IsFifo s.settings.alg
      → Moved s (taken_by step) t
  Step-Moved array a b c d s t (lts_conex e actions k) o h fifo =
      Moved-of_Unmoved s t
        ((lts_event-Unmoved s.lpl s.settings s e (refl, refl)).of_value (t, actions) k)
  Step-Moved array a b c d s t (lts_new_first k) o h fifo =
      Moved-of_Unmoved s t ((lts_new_take-Unmoved s.lpl s.settings s (refl, refl)).of_value t k)
  Step-Moved array a b c d s t (lts_new_second k) o h fifo =
      Moved-of_Unmoved s t ((lts_new_admit-Unmoved s.lpl s.settings s (refl, refl)).of_value t k)
  Step-Moved array a b c d s t (sts k) o h fifo =
      let (lpl, settings) = (sts_round-appends array a b c d s o h fifo).of_value t k in
      ([], arrivals a b c d s, refl, sym lpl, settings)
  Step-Moved array a b c d s t (procer fuel signals k) o h fifo =
      let (image, lpl, settings) = (procer_round-takes fuel signals s h.5).of_value t k in
      (image ∷ [], [], refl, append-nil s.lpl.queue ∙ lpl, settings)
  Step-Moved array a b c d s t (io_first k) o h fifo =
      Moved-of_Unmoved s t ((io_take-Unmoved s.lpl s.settings s (refl, refl)).of_value t k)
  Step-Moved array a b c d s t (io_second i k) o h fifo =
      Moved-of_Unmoved s t ((io_finish-Unmoved s.lpl s.settings i s (refl, refl)).of_value t k)
  Step-Moved array a b c d s t (signalled g k) o h fifo =
      Moved-of_Unmoved s t
        ((signal_handler-kept (Unmoved s.lpl s.settings) (λ s h. h) g s (refl, refl)).of_value t k)

  Moved-trans : (s t u : System D) (m n : ℕ) → Moved s m t → Moved t n u → Moved s (m + n) u
  Moved-trans s t u m n (taken, behind, l, e, settings) (taken', behind', l', e', settings') = (
    taken ++ taken',
    behind ++ behind',
    omega (arith, length-append taken taken', l, l'),
    sym (append_assoc s.lpl.queue behind behind')
        ∙ ap (λ (q : List (ProcessImage D)). q ++ behind') e
        ∙ append_assoc taken t.lpl.queue behind'
        ∙ ap (λ (q : List (ProcessImage D)). taken ++ q) e'
        ∙ sym (append_assoc taken taken' u.lpl.queue),
    settings' ∙ settings,
  )

  -- The same after any number of steps, where queues and semaphores agree all along.
  Steps-Moved :
      (array : List QueueEntry) (a b c d : Origin) (s t : System D) (steps : Steps s t)
      → IsOrder a b c d s
      → IsConsistent array s
      → IsFifo s.settings.alg
      → Moved s (dispatches steps) t × IsConsistent array t
  Steps-Moved array a b c d s t stay o h fifo = (([], [], refl, append-nil s.lpl.queue, refl), h)
  Steps-Moved array a b c d s t (next {s = u} before step) o h fifo =
      let ((taken, behind, l, e, settings), h') = Steps-Moved array a b c d s u before o h fifo in
      let o' = IsOrder-at a b c d s u o (ap (λ (q : Settings D). q.queues_array) (sym settings)) in
      let fifo' = subst (λ (q : Settings D). IsFifo q.alg) (sym settings) fifo in
      (
        Moved-trans s u t (dispatches before) (taken_by step) (taken, behind, l, e, settings)
            (Step-Moved array a b c d u t step o' h' fifo'),
        Step-IsConsistent array a b c d u t o' step h',
      )

  -- In a state where queues and semaphores agree and the queues array names each queue once, under
  -- FIFO or RR, a ready process is never overtaken, whatever the threads do between two readings of
  -- the configuration: after as many rounds of the dispatcher as there were processes before it, and
  -- any other steps in any order, it is the first of LPL, and the next round of the dispatcher does
  -- not wait but runs it.
  pub ready-runs :
      (array : List QueueEntry) (a b c d : Origin) (s t : System D)
      (before after : List (ProcessImage D)) (image : ProcessImage D) (steps : Steps s t)
      → IsOrder a b c d s
      → IsConsistent array s
      → IsFifo s.settings.alg
      → s.lpl.queue ≡ before ++ image ∷ after
      → dispatches steps ≡ length before
      → (behind : List (ProcessImage D)) × (t.lpl.queue ≡ image ∷ (after ++ behind))
        × ((fuel : ℕ) (signals : ℕ → Bool)
            → procer_round fuel signals t
              ≡ dispatch fuel signals image (record t { lpl = counted (after ++ behind) }))
  ready-runs array a b c d s t before after image steps o h fifo ready rounds =
      let ((taken, behind, l, e, settings), h') = Steps-Moved array a b c d s t steps o h fifo in
      let first : t.lpl.queue ≡ image ∷ (after ++ behind) = sym (
        append-cancel before taken (image ∷ (after ++ behind)) t.lpl.queue
          (omega (arith, l, rounds))
          (sym (append_assoc before (image ∷ after) behind)
            ∙ ap (λ (q : List (ProcessImage D)). q ++ behind) (sym ready)
            ∙ e)) in
      (
        behind,
        first,
        λ fuel signals. procer_round-next fuel signals t image (after ++ behind) h'.5 first,
      )
