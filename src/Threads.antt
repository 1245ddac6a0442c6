-- ===== src/Threads.antt =====
-- The threads of PP together, as PROCER/PP/src/main.c starts them: the state in which they start, the
-- signal handler, and the steps that they make in any order. A step of a thread is one of the
-- functions of the other modules, where it gives a state; the
-- reading of the configuration is not a `Step`, so `Steps` are the runs between two readings, and
-- `Lives` has the readings too.
pub mod Signals
pub mod Reachable
pub mod Waiting
pub mod Lifetime
pub mod Pool
use sisop_2012_2c.Shared.{ℕ, Bool, true, false, List, [], ◌∷◌, codes, ◌≡◌, if◌then◌else◌}
use sisop_2012_2c.Shared.Int.{pos, eqb_ℤ, to_u32}
use sisop_2012_2c.Shared.Outcome.{Outcome, ok, exits, ◌>>=◌}
use sisop_2012_2c.Commons.{Collections, Strings}
use sisop_2012_2c.Doubles.{Doubles}
use sisop_2012_2c.Process.{counted}
use sisop_2012_2c.System.{System, Settings, QueueEntry}
use sisop_2012_2c.Config.{Config, configuration_reader}
use sisop_2012_2c.Lts.{Event, Action, lts_event, lts_new_take, lts_new_admit}
use sisop_2012_2c.Io.{io_take, io_finish}
use sisop_2012_2c.Procer.{procer_round}
use sisop_2012_2c.Sts.{sts_round}

-- The queues are empty, and the three counters start at what the configuration says.
unfoldable pub initial_system : {D : Type 0} → Settings D → System D
initial_system t = record {
  settings = t;
  lfifo = counted [];
  lpn = counted [];
  lpr = counted [];
  lfq = counted [];
  lfio = counted [];
  lpl = counted [];
  lpb = counted [];
  lps = [];
  sending_list = [];
  sts_in_empty = 0;
  mmp_sem = to_u32 t.mmp;
  mps_sem = to_u32 t.mps;
  io_threads = to_u32 t.io_thread_count;
  suspend = false;
  next_pid = 11;
  serving = [];
  lts_new_waits = false;
}

-- queuesArray, before its priorities are read
abbrev pub main_queues_array : List QueueEntry
main_queues_array =
    record { priority = pos 0; name = codes "PLPN" }
    ∷ record { priority = pos 0; name = codes "PLPR" }
    ∷ record { priority = pos 0; name = codes "PLFQ" }
    ∷ record { priority = pos 0; name = codes "PLFIO" }
    ∷ []

pub data Signal : Type 0 where
  sigusr1 sigint other : Signal

-- SIGINT ends PP only when no process is in the system.
pub signal_handler : {D : Type 0} → Signal → System D → Outcome (System D)
signal_handler sigusr1 s = ok (record s { suspend = true })
signal_handler sigint s = if eqb_ℤ (pos s.mps_sem) s.settings.mps then exits else ok s
signal_handler other s = ok s

module _ {D : Type 0} ⦃c : Collections⦄ ⦃st : Strings⦄ ⦃d : Doubles D⦄ where
  pub data Step : System D → System D → Type 0 where
    lts_conex :
        {s s' : System D} (e : Event) (actions : List Action)
        → lts_event s e ≡ ok (s', actions)
        → Step s s'
    lts_new_first : {s s' : System D} → lts_new_take s ≡ ok s' → Step s s'
    lts_new_second : {s s' : System D} → lts_new_admit s ≡ ok s' → Step s s'
    sts : {s s' : System D} → sts_round s ≡ ok s' → Step s s'
    procer :
        {s s' : System D} (fuel : ℕ) (signals : ℕ → Bool)
        → procer_round fuel signals s ≡ ok s'
        → Step s s'
    io_first : {s s' : System D} → io_take s ≡ ok s' → Step s s'
    io_second : {s s' : System D} (i : ℕ) → io_finish i s ≡ ok s' → Step s s'
    signalled : {s s' : System D} (g : Signal) → signal_handler g s ≡ ok s' → Step s s'

  -- The states that are reached from one state.
  pub data Steps (start : System D) : System D → Type 0 where
    stay : Steps start start
    next : {s t : System D} → Steps start s → Step s t → Steps start t

module _ {D : Type 0} ⦃c : Collections⦄ ⦃d : Doubles D⦄ where
  -- The thread `configure` reads pp.config once before the semaphores get their values, while the
  -- queues are empty; `blank` is what stands in the settings before.
  unfoldable pub start_system : Config D → Settings D → Outcome (System D)
  start_system config blank = do
    s ←
        configuration_reader config
          (initial_system (record blank { queues_array = main_queues_array; flag_ready = false }))
    ok (initial_system s.settings)

module _ {D : Type 0} ⦃c : Collections⦄ ⦃st : Strings⦄ ⦃d : Doubles D⦄ where
  -- The states of PP from its start on, with the readings of pp.config at any time.
  pub data Lives (config : Config D) (blank : Settings D) : System D → Type 0 where
    started : {s : System D} → start_system config blank ≡ ok s → Lives config blank s
    stepped : {s t : System D} → Lives config blank s → Step s t → Lives config blank t
    reread :
        {s t : System D} (changed : Config D)
        → Lives config blank s
        → configuration_reader changed s ≡ ok t
        → Lives config blank t
