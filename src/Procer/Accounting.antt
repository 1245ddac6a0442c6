-- ===== src/Procer/Accounting.antt =====
-- A round of the dispatcher keeps the agreement of queues and semaphores.
use sisop_2012_2c.Shared.{ℕ, ◌≡◌, refl, sym, ◌∙◌, inl, inr, Bool, List, [], ◌∷◌, length, arith}
use sisop_2012_2c.Shared.Outcome.{Holds, Holds->>=, Holds-after, Holds-waits}
use sisop_2012_2c.Commons.{Collections, Strings}
use sisop_2012_2c.Doubles.{Doubles}
use sisop_2012_2c.Process.{ProcessImage, IoProcessing, enqueue-IsCounted, pop-cases}
use sisop_2012_2c.System.{System, QueueEntry}
use sisop_2012_2c.System.Consistent.{IsConsistent, arrive_quantum-IsConsistent}
use sisop_2012_2c.Script.{code_segment_creator}
use sisop_2012_2c.Execution.{process_execution}
use sisop_2012_2c.Execution.Quantum.{IsStopped}
use sisop_2012_2c.Procer.Preserve.{IsKeptByProcer, run-kept, leave-kept}
use sisop_2012_2c.Procer.{procer_round, sync_image, start}

module _ {D : Type 0} where
  length-sync_image :
      (image : ProcessImage D) (l : List (IoProcessing D)) → length (sync_image image l) ≡ length l
  length-sync_image image [] = refl
  length-sync_image image (io ∷ l) = omega (arith, length-sync_image image l)

module _ {D : Type 0} ⦃c : Collections⦄ (array : List QueueEntry) where
  IsConsistent-IsKeptByProcer : IsKeptByProcer (IsConsistent {D = D} array)
  IsConsistent-IsKeptByProcer = record {
    counters_kept = λ s suspend mmp mps lps pending h. h;
    request_kept = λ s io (settings, lpn, lpr, lfq, lfio, lpl, lpb, lfifo, sts).
        (settings, lpn, lpr, lfq, lfio, lpl, enqueue-IsCounted s.lpb io lpb, lfifo, sts);
    sync_kept = λ s image (settings, lpn, lpr, lfq, lfio, lpl, lpb, lfifo, sts). (
      settings,
      lpn,
      lpr,
      lfq,
      lfio,
      lpl,
      lpb ∙ sym (length-sync_image image s.lpb.queue),
      lfifo,
      sts,
    );
    arrive_quantum_kept = λ s image h. arrive_quantum-IsConsistent array s image h;
  }

module _ {D : Type 0} ⦃c : Collections⦄ ⦃st : Strings⦄ ⦃d : Doubles D⦄
    (array : List QueueEntry) where
  -- Whatever the process does, its requests, its end, its suspension or its return to LFQ leave
  -- queues and semaphores in agreement.
  pub procer_round-IsConsistent :
      (fuel : ℕ) (signals : ℕ → Bool) (sys : System D)
      → IsConsistent array sys
      → Holds (IsConsistent array) (procer_round fuel signals sys)
  unfolding procer_round start
  procer_round-IsConsistent fuel signals sys (settings, lpn, lpr, lfq, lfio, lpl, lpb, lfifo, sts) =
      let P = IsConsistent array in
      let k = IsConsistent-IsKeptByProcer array in
      elim (pop-cases sys.lpl lpl) [
        | inl empty ↦ rw empty Holds-waits
        | inr (image, rest, e, popped, taken) ↦
            rw (taken, popped)
              (Holds-after (code_segment_creator image.code) λ code f.
                Holds->>= (λ m. P m.system × IsStopped code m)
                  (process_execution code signals fuel (
                    start image
                      (record sys { lpl = record { queue = rest; empty = length rest } })))
                  (run-kept P k code signals fuel _
                    (settings, lpn, lpr, lfq, lfio, refl, lpb, lfifo, sts))
                  λ m h. leave-kept P k code m h.0)
      ]
