-- ===== src/Sts/Ready.antt =====
-- Under FIFO and RR the scheduler puts what arrives behind LPL.
use sisop_2012_2c.Shared.{
  ℕ, zero, suc, sym, ◌≡◌, ◌≢◌, refl, ap, ◌∙◌, ◌⊎◌, inl, inr, true, ◌||◌, List, ◌++◌, CString, codes,
}
use sisop_2012_2c.Shared.Int.{pos, eqb_ℤ}
use sisop_2012_2c.Shared.Outcome.{Holds, Holds-ok, Holds-waits, sem_wait, sem_wait-cases, ok}
use sisop_2012_2c.Commons.{Collections}
use sisop_2012_2c.Doubles.{Doubles}
use sisop_2012_2c.Process.{counted}
use sisop_2012_2c.System.{System, QueueEntry}
use sisop_2012_2c.System.Consistent.{IsConsistent, incoming}
use sisop_2012_2c.Sts.{str_switch, sts_round}
use sisop_2012_2c.Sts.Drain.{Origin, IsOrder, arrivals, all_drained, settings-drained, drained}
use sisop_2012_2c.Sts.Pass.{ordenar_fifo-appends}
use sisop_2012_2c.Sts.Accounting.{
  QueuesCounted-of_IsConsistent, ordenar_pri-passes, ordenar_spn-passes,
}
use sisop_2012_2c.Sts.Conservation.{Conserves, sts_round-Conserves}

-- The algorithm keeps the order of arrival.
abbrev pub IsFifo : CString → Type 0
IsFifo alg = (alg ≡ codes "FIFO") ⊎ (alg ≡ codes "RR")

str_switch-fifo :
    (alg : CString)
    → IsFifo alg
    → (eqb_ℤ (str_switch alg) (pos 1) || eqb_ℤ (str_switch alg) (pos 2)) ≡ true
unfolding str_switch
str_switch-fifo alg (inl e) = rw e refl
str_switch-fifo alg (inr e) = rw e refl

module _ {D : Type 0} ⦃cl : Collections⦄ ⦃dbl : Doubles D⦄ (array : List QueueEntry)
    (a b c d : Origin) (s : System D) where
  settings-all_drained : (all_drained a b c d s).settings ≡ s.settings
  settings-all_drained =
      let s1 = drained a s in
      let s2 = drained b s1 in
      let s3 = drained c s2 in
      settings-drained d s3
      ∙ (settings-drained c s2 ∙ (settings-drained b s1 ∙ settings-drained a s))

  pub sts_round-appends :
      IsOrder a b c d s
      → IsConsistent array s
      → IsFifo s.settings.alg
      → Holds
          (λ s'. (s'.lpl.queue ≡ s.lpl.queue ++ arrivals a b c d s) × (s'.settings ≡ s.settings))
          (sts_round s)
  unfolding sts_round
  sts_round-appends o h fifo =
      let (settings, lpn, lpr, lfq, lfio, lpl, lpb, lfifo, sts) = h in
      let (s', e, p) =
        ordenar_fifo-appends a b c d s (QueuesCounted-of_IsConsistent array s h) lpl o in
      elim (sem_wait-cases s.sts_in_empty) [
        | inl nothing ↦ rw nothing Holds-waits
        | inr (n, more, taken) ↦
            rw (taken, str_switch-fifo s.settings.alg fifo, e ∙ ap ok p.0)
              (Holds-ok _ (refl, settings-all_drained))
      ]

sem_wait-posted : (n : ℕ) → n ≢ 0 → (k : ℕ) × (sem_wait n ≡ ok k)
sem_wait-posted zero h = absurd (h refl)
sem_wait-posted (suc k) h = (k, refl)

-- An algorithm that strSwitch knows.
abbrev pub IsKnown : CString → Type 0
IsKnown alg = IsFifo alg ⊎ ((alg ≡ codes "PRI") ⊎ (alg ≡ codes "SPN"))

module _ {D : Type 0} ⦃cl : Collections⦄ ⦃dbl : Doubles D⦄ (array : List QueueEntry)
    (a b c d : Origin) (s : System D) where
  sts_round-passes :
      IsOrder a b c d s
      → IsConsistent array s
      → IsKnown s.settings.alg
      → (n : ℕ) → sem_wait s.sts_in_empty ≡ ok n
      → (s' : System D) × (sts_round s ≡ ok s')
  unfolding sts_round str_switch
  sts_round-passes o (settings, lpn, lpr, lfq, lfio, lpl, lpb, lfifo, sts) (inl fifo) n taken =
      let counts =
        QueuesCounted-of_IsConsistent array s
          (settings, lpn, lpr, lfq, lfio, lpl, lpb, lfifo, sts) in
      let (s', e, p) = ordenar_fifo-appends a b c d s counts lpl o in
      (s', rw (taken, str_switch-fifo s.settings.alg fifo, e) refl)
  sts_round-passes o (settings, lpn, lpr, lfq, lfio, lpl, lpb, lfifo, sts) (inr (inl pri)) n taken =
      let counts =
        QueuesCounted-of_IsConsistent array s
          (settings, lpn, lpr, lfq, lfio, lpl, lpb, lfifo, sts) in
      let (ready, e) = ordenar_pri-passes a b c d s counts lpl o in
      (
        record (all_drained a b c d s) { lpl = counted ready },
        rw (taken, ap str_switch pri, e) refl,
      )
  sts_round-passes o (settings, lpn, lpr, lfq, lfio, lpl, lpb, lfifo, sts) (inr (inr spn)) n taken =
      let counts =
        QueuesCounted-of_IsConsistent array s
          (settings, lpn, lpr, lfq, lfio, lpl, lpb, lfifo, sts) in
      let (ready, e) = ordenar_spn-passes a b c d s counts lpl o in
      (
        record (all_drained a b c d s) { lpl = counted ready },
        rw (taken, ap str_switch spn, e) refl,
      )

  -- Where queues and semaphores agree, the queues array names each queue once, the algorithm is known
  -- and something has arrived, a round of STS does not wait, exit or fault: it gives a state where
  -- every arrival and every process that was ready is in LPL, each once, and nothing is left in an
  -- incoming queue.
  pub sts_round-serves :
      IsOrder a b c d s
      → IsConsistent array s
      → IsKnown s.settings.alg
      → incoming s ≢ 0
      → (s' : System D) × (sts_round s ≡ ok s') × Conserves array a b c d s s'
  sts_round-serves o h known some_arrived =
      let (n, taken) = sem_wait-posted s.sts_in_empty (λ e. some_arrived (sym h.8 ∙ e)) in
      let (s', e) = sts_round-passes o h known n taken in
      (s', e, (sts_round-Conserves array a b c d s o h).of_value s' e)
