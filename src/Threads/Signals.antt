-- ===== src/Threads/Signals.antt =====
-- What the signal handler keeps: a property that does not look at SUSPEND.
use sisop_2012_2c.Shared.{true}
use sisop_2012_2c.Shared.Int.{pos, eqb_ℤ}
use sisop_2012_2c.Shared.Outcome.{Holds, Holds-ok, Holds-if, Holds-exits}
use sisop_2012_2c.System.{System}
use sisop_2012_2c.Threads.{Signal, sigusr1, sigint, other, signal_handler}

module _ {D : Type 0} (P : System D → Type 0)
    (suspend_kept : (s : System D) → P s → P (record s { suspend = true })) where
  pub signal_handler-kept : (g : Signal) (s : System D) → P s → Holds P (signal_handler g s)
  unfolding signal_handler
  signal_handler-kept sigusr1 s h = Holds-ok _ (suspend_kept s h)
  signal_handler-kept sigint s h =
      Holds-if (eqb_ℤ (pos s.mps_sem) s.settings.mps) (λ empty. Holds-exits) (λ busy. Holds-ok s h)
  signal_handler-kept other s h = Holds-ok s h
