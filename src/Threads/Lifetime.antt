-- ===== src/Threads/Lifetime.antt =====
-- Queues and semaphores agree all the life of PP, whenever pp.config is read.
use mathlib.Core.Path.{subst}
use sisop_2012_2c.Shared.{◌≡◌, refl, sym, false, List}
use sisop_2012_2c.Shared.Int.{pos}
use sisop_2012_2c.Shared.Outcome.{Outcome, ok, Holds-of_ok}
use sisop_2012_2c.Commons.{Collections, Strings}
use sisop_2012_2c.Doubles.{Doubles}
use sisop_2012_2c.System.{System, Settings, QueueEntry}
use sisop_2012_2c.System.Consistent.{IsConsistent}
use sisop_2012_2c.Sts.Drain.{IsOrder-at, new, resumed, end_of_quantum, end_of_io}
use sisop_2012_2c.Config.{Config, configuration_reader}
use sisop_2012_2c.Config.Accounting.{IsSound, configuration_reader-IsSound}
use sisop_2012_2c.Threads.{
  initial_system, main_queues_array, start_system, Step, Lives, started, stepped, reread,
}
use sisop_2012_2c.Threads.Reachable.{Step-IsConsistent, initial_system-IsConsistent}

module _ {D : Type 0} ⦃c : Collections⦄ ⦃dbl : Doubles D⦄ where
  -- A state with the settings of a sound one, and nothing in its queues.
  initial_system-IsSound : (s : System D) → IsSound s → IsSound (initial_system s.settings)
  unfolding initial_system
  initial_system-IsSound s h = record {
    a = h.a;
    b = h.b;
    c = h.c;
    d = h.d;
    order = IsOrder-at h.a h.b h.c h.d s (initial_system s.settings) h.order refl;
    consistent = initial_system-IsConsistent s.settings;
  }

  main-IsSound :
      (blank : Settings D)
      → IsSound
          (initial_system (record blank { queues_array = main_queues_array; flag_ready = false }))
  unfolding initial_system
  main-IsSound blank = record {
    a = new;
    b = resumed;
    c = end_of_quantum;
    d = end_of_io;
    order = record {
      p = pos 0;
      q = pos 0;
      r = pos 0;
      t = pos 0;
      array = refl;
      ba = λ e. cc;
      ca = λ e. cc;
      cb = λ e. cc;
      da = λ e. cc;
      db = λ e. cc;
      dc = λ e. cc;
    };
    consistent =
        initial_system-IsConsistent
          (record blank { queues_array = main_queues_array; flag_ready = false });
  }

  -- PP starts whatever pp.config says.
  pub start_system-starts :
      (config : Config D) (blank : Settings D)
      → (s : System D) × (start_system config blank ≡ ok s) × IsSound s
  unfolding start_system
  start_system-starts config blank =
      let (s, e, h) = configuration_reader-IsSound config _ (main-IsSound blank) in
      (initial_system s.settings, rw e refl, initial_system-IsSound s h)

  -- What a code comes to is what it is known to come to.
  total-IsSound :
      (m : Outcome (System D)) (t : System D)
      → (s : System D) × (m ≡ ok s) × IsSound s
      → m ≡ ok t
      → IsSound t
  total-IsSound m t (s, e, h) k = (Holds-of_ok {P = IsSound} m s e h).of_value t k

module _ {D : Type 0} ⦃c : Collections⦄ ⦃st : Strings⦄ ⦃dbl : Doubles D⦄ where
  Step-IsSound : (s t : System D) → IsSound s → Step s t → IsSound t
  Step-IsSound s t h step =
      let k =
        Step-IsConsistent s.settings.queues_array h.a h.b h.c h.d s t h.order step h.consistent in
      record {
        a = h.a;
        b = h.b;
        c = h.c;
        d = h.d;
        order = IsOrder-at h.a h.b h.c h.d s t h.order (sym k.0);
        consistent = subst (λ (q : List QueueEntry). IsConsistent q t) (sym k.0) k;
      }

  pub lives-IsSound :
      (config : Config D) (blank : Settings D) (s : System D) → Lives config blank s → IsSound s
  lives-IsSound config blank s (started e) =
      total-IsSound (start_system config blank) s (start_system-starts config blank) e
  lives-IsSound config blank t (stepped {s = s} before step) =
      Step-IsSound s t (lives-IsSound config blank s before) step
  lives-IsSound config blank t (reread {s = s} changed before e) =
      total-IsSound (configuration_reader changed s) t
        (configuration_reader-IsSound changed s (lives-IsSound config blank s before)) e
