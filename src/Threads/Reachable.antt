-- ===== src/Threads/Reachable.antt =====
-- Queues and semaphores agree in every state that the threads reach.
use sisop_2012_2c.Shared.{◌≡◌, refl, ◌⊎◌, inl, inr, List, get_elem?, Option-cases}
use sisop_2012_2c.Shared.Outcome.{
  Outcome, ok, fault, waits, Holds, Holds-fault, Holds-ok, Holds-exits, Holds-waits,
}
use sisop_2012_2c.Commons.{Collections, Strings}
use sisop_2012_2c.Doubles.{Doubles}
use sisop_2012_2c.System.{System, Settings, QueueEntry}
use sisop_2012_2c.System.Consistent.{IsConsistent}
use sisop_2012_2c.Sts.Drain.{Origin, IsOrder}
use sisop_2012_2c.Sts.Accounting.{sts_round-Ends, Ends, waiting, exiting, passing}
use sisop_2012_2c.Lts.Accounting.{lts_event-IsConsistent, lts_new-IsConsistent}
use sisop_2012_2c.Procer.Accounting.{procer_round-IsConsistent}
use sisop_2012_2c.Io.Accounting.{io_take-IsConsistent, io_finish-IsConsistent, io_finish-none}
use sisop_2012_2c.Threads.Signals.{signal_handler-kept}
use sisop_2012_2c.Threads.{
  initial_system, Step, lts_conex, lts_new_first, lts_new_second, sts, procer, io_first, io_second,
  signalled,
}

-- The three outcomes of a step that cannot fault, as what holds of its value.
Holds-of_waits_or :
    {A : Type 0} {P : A → Type 0} {m : Outcome A}
    → (m ≡ waits) ⊎ ((a : A) × (m ≡ ok a) × P a)
    → Holds P m
Holds-of_waits_or (inl w) = rw w Holds-waits
Holds-of_waits_or (inr (a, e, p)) = rw e (Holds-ok a p)

Holds-of_fault : {A : Type 0} {P : A → Type 0} {m : Outcome A} → m ≡ fault → Holds P m
Holds-of_fault e = rw e Holds-fault

module _ {D : Type 0} ⦃c : Collections⦄ ⦃st : Strings⦄ ⦃dbl : Doubles D⦄
    (array : List QueueEntry) where
  Holds-of_Ends : {m : Outcome (System D)} → Ends array m → Holds (IsConsistent array) m
  Holds-of_Ends waiting = Holds-waits
  Holds-of_Ends exiting = Holds-exits
  Holds-of_Ends (passing s h) = Holds-ok s h

  pub Step-IsConsistent :
      (a b c d : Origin) (s t : System D)
      → IsOrder a b c d s
      → Step s t
      → IsConsistent array s
      → IsConsistent array t
  Step-IsConsistent a b c d s t o (lts_conex e actions k) h =
      (lts_event-IsConsistent array s e h).of_value (t, actions) k
  Step-IsConsistent a b c d s t o (lts_new_first k) h =
      (Holds-of_waits_or (lts_new-IsConsistent array s h).0).of_value t k
  Step-IsConsistent a b c d s t o (lts_new_second k) h =
      (Holds-of_waits_or (lts_new-IsConsistent array s h).1).of_value t k
  Step-IsConsistent a b c d s t o (sts k) h =
      (Holds-of_Ends (sts_round-Ends array a b c d s o h)).of_value t k
  Step-IsConsistent a b c d s t o (procer fuel signals k) h =
      (procer_round-IsConsistent array fuel signals s h).of_value t k
  Step-IsConsistent a b c d s t o (io_first k) h =
      (Holds-of_waits_or (io_take-IsConsistent array s h)).of_value t k
  Step-IsConsistent a b c d s t o (io_second i k) h = elim (Option-cases (get_elem? s.serving i)) [
    | inl nobody ↦
        (Holds-of_fault {P = IsConsistent array} (io_finish-none array s i nobody)).of_value t k
    | inr (io, somebody) ↦
        (Holds-of_waits_or (inr (io_finish-IsConsistent array s i io somebody h))).of_value t k
  ]
  Step-IsConsistent a b c d s t o (signalled g k) h =
      (signal_handler-kept (IsConsistent array) (λ s h. h) g s h).of_value t k

module _ {D : Type 0} where
  pub initial_system-IsConsistent :
      (t : Settings D) → IsConsistent t.queues_array (initial_system t)
  unfolding initial_system
  initial_system-IsConsistent t = (refl, refl, refl, refl, refl, refl, refl, refl, refl)
