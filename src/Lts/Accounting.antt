-- ===== src/Lts/Accounting.antt =====
-- The long term scheduler keeps the agreement of queues and semaphores.
use sisop_2012_2c.Shared.{
  ℕ, ◌+◌, ◌≡◌, ap, ◌⊎◌, inl, inr, true, false, List, length, Bool-cases, List-cases, arith,
  if◌then◌else◌,
}
use sisop_2012_2c.Shared.Outcome.{ok, waits, Holds, sem_wait-cases}
use sisop_2012_2c.Commons.{Collections}
use sisop_2012_2c.Doubles.{Doubles}
use sisop_2012_2c.Process.{ProcessImage, enqueue, sem_post}
use sisop_2012_2c.System.{System, QueueEntry}
use sisop_2012_2c.System.Consistent.{
  IsConsistent, delayed, arrive_new-IsConsistent, arrive_resumed-IsConsistent, delay-IsConsistent,
}
use sisop_2012_2c.Lts.{Event, lts_event, lts_new_take, lts_new_admit}
use sisop_2012_2c.Lts.Preserve.{IsKeptByLts, lts_event-kept}

module _ {D : Type 0} ⦃c : Collections⦄ ⦃d : Doubles D⦄ (array : List QueueEntry) where
  IsConsistent-IsKeptByLts : IsKeptByLts (IsConsistent {D = D} array)
  IsConsistent-IsKeptByLts = record {
    counters_kept = λ s mmp mps pid lps pending h. h;
    delay_kept = λ s image h. delay-IsConsistent array s image h;
    arrive_new_kept = λ s image h. arrive_new-IsConsistent array s image h;
    arrive_resumed_kept = λ s image h. arrive_resumed-IsConsistent array s image h;
  }

  -- Whatever the network gives, an event that LTSconex comes through leaves queues and semaphores in
  -- agreement.
  pub lts_event-IsConsistent :
      (s : System D) (event : Event)
      → IsConsistent array s
      → Holds (λ r. IsConsistent array r.0) (lts_event s event)
  lts_event-IsConsistent = lts_event-kept (IsConsistent array) IsConsistent-IsKeptByLts

module _ {D : Type 0} ⦃c : Collections⦄ (array : List QueueEntry) (s : System D) where
  lts_new_take-IsConsistent :
      IsConsistent array s
      → (lts_new_take s ≡ waits)
        ⊎ ((s' : System D) × (lts_new_take s ≡ ok s') × IsConsistent array s')
  unfolding lts_new_take
  lts_new_take-IsConsistent (settings, lpn, lpr, lfq, lfio, lpl, lpb, lfifo, sts) =
      elim (Bool-cases s.lts_new_waits) [
        | inl second ↦ inl (rw second)
        | inr first ↦ elim (sem_wait-cases s.lfifo.empty) [
          | inl empty ↦ inl (rw (first, empty))
          | inr (k, more, taken) ↦ inr (
            record s { lfifo = record { queue = s.lfifo.queue; empty = k }; lts_new_waits = true },
            rw (first, taken),
            (
              settings,
              lpn,
              lpr,
              lfq,
              lfio,
              lpl,
              lpb,
              omega (arith, lfifo, more, ap (λ w. s.lfifo.empty + (if w then 1 else 0)) first),
              sts,
            ),
          )
        ]
      ]

  lts_new_admit-IsConsistent :
      IsConsistent array s
      → (lts_new_admit s ≡ waits)
        ⊎ ((s' : System D) × (lts_new_admit s ≡ ok s') × IsConsistent array s')
  unfolding lts_new_admit
  lts_new_admit-IsConsistent (settings, lpn, lpr, lfq, lfio, lpl, lpb, lfifo, sts) =
      elim (Bool-cases s.lts_new_waits) [
        | inr first ↦ inl (rw first)
        | inl second ↦ elim (sem_wait-cases s.mmp_sem) [
          | inl full ↦ inl (rw (second, full))
          | inr (mmp, more, free) ↦ elim (List-cases s.lfifo.queue) [
            | inl blank ↦ absurd (omega (arith, lfifo, held second, ap length blank))
            | inr (image, rest, e) ↦ inr (
              record (moved mmp rest) {
                lpn = enqueue s.lpn image;
                sts_in_empty = sem_post s.sts_in_empty;
              },
              rw (second, free, e, c.pop_law image rest),
              arrive_new-IsConsistent array (moved mmp rest) image (
                settings,
                lpn,
                lpr,
                lfq,
                lfio,
                lpl,
                lpb,
                omega (arith, lfifo, held second, ap length e),
                sts,
              ),
            )
          ]
        ]
      ]
    where
      held : s.lts_new_waits ≡ true → delayed s ≡ s.lfifo.empty + 1
      held second = ap (λ w. s.lfifo.empty + (if w then 1 else 0)) second

      moved : ℕ → List (ProcessImage D) → System D
      moved mmp rest = record s {
        lfifo = record { queue = rest; empty = s.lfifo.empty };
        mmp_sem = mmp;
        lts_new_waits = false;
      }

  -- In a state where queues and semaphores agree, each of the two steps of LTSnew waits, or takes a
  -- delayed process, never NULL, and they agree afterwards, what LTSnew holds of LFIFO_empty included.
  pub lts_new-IsConsistent :
      IsConsistent array s
      → ((lts_new_take s ≡ waits)
          ⊎ ((s' : System D) × (lts_new_take s ≡ ok s') × IsConsistent array s'))
        × ((lts_new_admit s ≡ waits)
            ⊎ ((s' : System D) × (lts_new_admit s ≡ ok s') × IsConsistent array s'))
  lts_new-IsConsistent h = (lts_new_take-IsConsistent h, lts_new_admit-IsConsistent h)
