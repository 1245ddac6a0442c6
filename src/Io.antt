-- ===== src/Io.antt =====
-- The I/O threads, PROCER/PP/src/io.c. A thread takes a request, sleeps, and hands the process on;
-- other threads run meanwhile, so these are two steps, and `serving` holds the requests between them.
pub mod Accounting
pub mod Ready
pub mod Pool
use sisop_2012_2c.Shared.{ℕ, ◌*◌, ◌%◌, ◌^◌, ◌∷◌, get_elem?, erase_idx, if◌then◌else◌}
use sisop_2012_2c.Shared.Int.{to_u32}
use sisop_2012_2c.Shared.Outcome.{Outcome, ok, sem_wait, deref, ◌>>=◌}
use sisop_2012_2c.Commons.{Collections, queue_pop}
use sisop_2012_2c.Process.{IoProcessing, sem_post, enqueue}
use sisop_2012_2c.System.{System}

module _ {D : Type 0} where
  -- The seconds of the sleep, a product of uint32_t.
  pub sleep_arg : System D → IoProcessing D → ℕ
  sleep_arg s io = io.io_time * to_u32 s.settings.io_time % 2 ^ 32

module _ {D : Type 0} ⦃c : Collections⦄ where
  -- Down to `sleep`. A thread that has LPB_empty never waits for io_threads, which starts at the
  -- number of threads and counts those that serve.
  pub io_take : System D → Outcome (System D)
  io_take s = do
    requests ← sem_wait s.lpb.empty
    free ← sem_wait s.io_threads
    let popped = queue_pop s.lpb.queue
    io ← deref popped.0
    ok (record s {
      lpb = record { queue = popped.1; empty = requests };
      io_threads = free;
      serving = io ∷ s.serving;
    })

  -- After the `sleep` of the thread whose request is the i-th of `serving`.
  pub io_finish : ℕ → System D → Outcome (System D)
  io_finish i s = do
    io ← deref (get_elem? s.serving i)
    let s' = record s { serving = erase_idx s.serving i; io_threads = sem_post s.io_threads }
    if io.flag_non_blocking
        then ok s'
        else ok (record s' {
          lfio = enqueue s.lfio io.process_image;
          sts_in_empty = sem_post s.sts_in_empty;
        })
