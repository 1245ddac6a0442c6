-- ===== src/Io/Ready.antt =====
-- The I/O threads do not touch LPL.
use sisop_2012_2c.Shared.{ℕ, get_elem?}
use sisop_2012_2c.Shared.Outcome.{deref, sem_wait, Holds, Holds-ok, Holds-if, Holds-after}
use sisop_2012_2c.Commons.{Collections, queue_pop}
use sisop_2012_2c.Process.{ProcessImage, Channel}
use sisop_2012_2c.System.{System, Settings}
use sisop_2012_2c.System.Ready.{Unmoved}
use sisop_2012_2c.Io.{io_take, io_finish}

module _ {D : Type 0} ⦃c : Collections⦄ (ready : Channel (ProcessImage D)) (t : Settings D) where
  pub io_take-Unmoved : (s : System D) → Unmoved ready t s → Holds (Unmoved ready t) (io_take s)
  unfolding io_take
  io_take-Unmoved s h = Holds-after (sem_wait s.lpb.empty) λ requests e.
      Holds-after (sem_wait s.io_threads)
        λ free f. Holds-after (deref (queue_pop s.lpb.queue).0) λ io g. Holds-ok _ h

  pub io_finish-Unmoved :
      (i : ℕ) (s : System D) → Unmoved ready t s → Holds (Unmoved ready t) (io_finish i s)
  unfolding io_finish
  io_finish-Unmoved i s h =
      Holds-after (deref (get_elem? s.serving i))
        λ io e. Holds-if io.flag_non_blocking (λ at_once. Holds-ok _ h) (λ blocked. Holds-ok _ h)
