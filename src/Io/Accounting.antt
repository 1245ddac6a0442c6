-- ===== src/Io/Accounting.antt =====
-- The I/O threads never find a queue empty that its semaphore counts as full, and keep the agreement.
use sisop_2012_2c.Shared.{
  ℕ, ◌≡◌, refl, ◌⊎◌, inl, inr, List, some, none, get_elem?, erase_idx, ◌∷◌, length, Bool-cases,
}
use sisop_2012_2c.Shared.Outcome.{ok, fault, waits, sem_wait-cases}
use sisop_2012_2c.Commons.{Collections}
use sisop_2012_2c.Process.{IoProcessing, pop-cases, enqueue, sem_post}
use sisop_2012_2c.System.{System, QueueEntry}
use sisop_2012_2c.System.Consistent.{IsConsistent, arrive_io-IsConsistent}
use sisop_2012_2c.Io.{io_take, io_finish}

module _ {D : Type 0} ⦃c : Collections⦄ (array : List QueueEntry) (s : System D) where
  -- In a state where queues and semaphores agree, an I/O thread waits for a request or for its turn,
  -- or it takes a request, never NULL, and they agree afterwards.
  pub io_take-IsConsistent :
      IsConsistent array s
      → (io_take s ≡ waits) ⊎ ((s' : System D) × (io_take s ≡ ok s') × IsConsistent array s')
  unfolding io_take
  io_take-IsConsistent (settings, lpn, lpr, lfq, lfio, lpl, lpb, lfifo, sts) =
      elim (pop-cases s.lpb lpb) [
        | inl empty ↦ inl (rw empty)
        | inr (x, rest, e, popped, taken) ↦ elim (sem_wait-cases s.io_threads) [
          | inl busy ↦ inl (rw (taken, busy))
          | inr (k, more, free) ↦ inr (
            record s {
              lpb = record { queue = rest; empty = length rest };
              io_threads = k;
              serving = x ∷ s.serving;
            },
            rw (taken, free, popped),
            (settings, lpn, lpr, lfq, lfio, lpl, refl, lfifo, sts),
          )
        ]
      ]

  -- A thread that has served the i-th of the requests hands the process on, or nothing if it did not
  -- block, and queues and semaphores agree afterwards, STS_in_empty included.
  pub io_finish-IsConsistent :
      (i : ℕ) (io : IoProcessing D)
      → get_elem? s.serving i ≡ some io
      → IsConsistent array s
      → (s' : System D) × (io_finish i s ≡ ok s') × IsConsistent array s'
  unfolding io_finish
  io_finish-IsConsistent i io at h = elim (Bool-cases io.flag_non_blocking) [
    | inl non_blocking ↦ (served, rw (at, non_blocking), h)
    | inr blocking ↦ (
      record served {
        lfio = enqueue s.lfio io.process_image;
        sts_in_empty = sem_post s.sts_in_empty;
      },
      rw (at, blocking),
      arrive_io-IsConsistent array served io.process_image h,
    )
  ]
    where
      served : System D
      served = record s { serving = erase_idx s.serving i; io_threads = sem_post s.io_threads }

  -- A thread that has no request cannot finish one.
  pub io_finish-none : (i : ℕ) → get_elem? s.serving i ≡ none → io_finish i s ≡ fault
  unfolding io_finish
  io_finish-none i at = rw at
