-- ===== src/Procer/Preserve.antt =====
-- What a round of the dispatcher keeps behind the taking of its process: a property of the state that
-- the changes of the run and of the end of the round keep one by one.
use sisop_2012_2c.Shared.{ℕ, Bool, false, List, CString, codes, str_eq, get_elem?}
use sisop_2012_2c.Shared.Int.{pos, eqb_ℤ}
use sisop_2012_2c.Shared.Outcome.{
  sem_wait, deref, Holds, Holds-ok, Holds-if, Holds-after, Holds->>=,
}
use sisop_2012_2c.Commons.{Collections, Strings, queue_pop}
use sisop_2012_2c.Doubles.{Doubles}
use sisop_2012_2c.Process.{ProcessImage, Channel, IoProcessing, Msg, enqueue, sem_post}
use sisop_2012_2c.System.{System}
use sisop_2012_2c.Script.{code_segment_creator}
use sisop_2012_2c.Message.{prepare_message}
use sisop_2012_2c.Machine.{Machine}
use sisop_2012_2c.Execution.{process_execution}
use sisop_2012_2c.Execution.Preserve.{IsKeptByTests}
use sisop_2012_2c.Execution.Quantum.{IsStopped, process_execution-stops}
use sisop_2012_2c.Procer.{retire, leave, finish, suspend_process, sync_image, procer_round, start}

-- The counters and lists that no thread waits for as a queue, a request to the I/O threads, what the
-- requests show of the process, and its return to LFQ.
pub record IsKeptByProcer {D : Type 0} ⦃c : Collections⦄ (P : System D → Type 0) : Type 0 where
  pub counters_kept :
      (s : System D) (suspend : Bool) (mmp mps : ℕ) (lps : List (ProcessImage D))
      (pending : List Msg)
      → P s
      → P (record s {
        suspend = suspend;
        mmp_sem = mmp;
        mps_sem = mps;
        lps = lps;
        sending_list = pending;
      })
  pub request_kept :
      (s : System D) (io : IoProcessing D) → P s → P (record s { lpb = enqueue s.lpb io })
  pub sync_kept :
      (s : System D) (image : ProcessImage D)
      → P s
      → P (record s { lpb = record { queue = sync_image image s.lpb.queue; empty = s.lpb.empty } })
  pub arrive_quantum_kept :
      (s : System D) (image : ProcessImage D)
      → P s
      → P (record s { lfq = enqueue s.lfq image; sts_in_empty = sem_post s.sts_in_empty })

module _ {D : Type 0} ⦃c : Collections⦄ ⦃d : Doubles D⦄ (P : System D → Type 0)
    (k : IsKeptByProcer P) where
  abbrev pub During : Machine D → Type 0
  During m = P m.system

  During-IsKept : IsKeptByTests During During
  During-IsKept = record {
    by_steps = record {
      set_image = λ m p q. q;
      sleep_kept = λ seconds m q. q;
      say_kept = λ text m q.
          k.counters_kept m.system m.system.suspend m.system.mmp_sem m.system.mps_sem m.system.lps _
            q;
      request_kept = λ flag time m q. k.request_kept m.system _ q;
      block_kept = λ m q. q;
      leave = λ m q. q;
      charge_kept = λ m q. q;
    };
    set_image_before = λ m p h. h;
    poll_kept = λ signals m h.
        k.counters_kept m.system _ m.system.mmp_sem m.system.mps_sem m.system.lps
          m.system.sending_list h;
    enter = λ m going h. h;
  }

  -- Whatever the process does.
  pub run-kept :
      ⦃st : Strings⦄ (code : List CString) (signals : ℕ → Bool) (fuel : ℕ) (m : Machine D)
      → P m.system
      → Holds (λ n. P n.system × IsStopped code n) (process_execution code signals fuel m)
  run-kept = process_execution-stops During During During-IsKept

  retire-kept :
      (code : List CString) (image : ProcessImage D) (io_block : Bool) (n : ℕ) (s : System D)
      → P s
      → Holds P (retire code image io_block n s)
  unfolding retire finish suspend_process
  retire-kept code image io_block n s h = Holds-after (deref (get_elem? code image.pc)) λ line e.
      Holds-if (str_eq line (codes "fin_programa"))
        (λ end. Holds-after (prepare_message image) λ text f.
          Holds-ok _ (k.counters_kept s _ (sem_post s.mmp_sem) (sem_post s.mps_sem) s.lps _ h))
        (λ no_end.
          Holds-if io_block
            (λ blk. Holds-ok _ (k.counters_kept s _ s.mmp_sem s.mps_sem s.lps s.sending_list h))
            (λ no_blk.
              Holds-if s.suspend
                (λ sus.
                  Holds-after (prepare_message image)
                    λ text f. Holds-ok _ (k.counters_kept s _ (sem_post s.mmp_sem) s.mps_sem _ _ h))
                (λ no_sus.
                  Holds-if (eqb_ℤ (pos n) s.settings.quantum)
                    (λ used. Holds-ok _ (k.arrive_quantum_kept s image h)) (λ left. Holds-ok s h))))

  -- Wherever the process goes.
  pub leave-kept :
      ⦃st : Strings⦄ (code : List CString) (m : Machine D) → P m.system → Holds P (leave code m)
  leave-kept code m h = retire-kept code _ m.io_block m.quantum_count _ (k.sync_kept m.system _ h)

  -- A round keeps a property that does not look at LPL.
  pub procer_round-kept :
      ⦃st : Strings⦄
      → ((s : System D) (l : Channel (ProcessImage D)) → P s → P (record s { lpl = l }))
      → (fuel : ℕ) (signals : ℕ → Bool) (s : System D) → P s
      → Holds P (procer_round fuel signals s)
  unfolding procer_round start
  procer_round-kept take fuel signals s h = Holds-after (sem_wait s.lpl.empty) λ n e.
      let popped = queue_pop s.lpl.queue in
      let taken = record s { lpl = record { queue = popped.1; empty = n } } in
      Holds-after (deref popped.0) λ image f.
        Holds-after (code_segment_creator image.code) λ code g.
          Holds->>= (λ m. P m.system × IsStopped code m)
            (process_execution code signals fuel (start image taken))
            (run-kept code signals fuel (start image taken) (
              k.counters_kept taken false s.mmp_sem s.mps_sem s.lps s.sending_list
                (take s taken.lpl h)))
            λ m q. leave-kept code m q.0
