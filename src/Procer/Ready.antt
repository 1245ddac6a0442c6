-- ===== src/Procer/Ready.antt =====
-- The dispatcher takes the first process of LPL, and nothing else of it.
use sisop_2012_2c.Shared.{ℕ, ◌≡◌, refl, sym, ap, ◌∙◌, inl, inr, Bool, List, ◌∷◌, length}
use sisop_2012_2c.Shared.Outcome.{
  sem_wait, Holds, Holds->>=, Holds-after, Holds-weaken, Holds-waits,
}
use sisop_2012_2c.Commons.{Collections, Strings, queue_pop}
use sisop_2012_2c.Doubles.{Doubles}
use sisop_2012_2c.Process.{ProcessImage, Channel, IsCounted, pop-cases}
use sisop_2012_2c.System.{System, Settings}
use sisop_2012_2c.System.Ready.{Unmoved}
use sisop_2012_2c.Script.{code_segment_creator}
use sisop_2012_2c.Execution.{process_execution}
use sisop_2012_2c.Execution.Quantum.{IsStopped}
use sisop_2012_2c.Procer.Preserve.{IsKeptByProcer, run-kept, leave-kept}
use sisop_2012_2c.Procer.{procer_round, start, dispatch}

module _ {D : Type 0} ⦃c : Collections⦄ (ready : Channel (ProcessImage D)) (t : Settings D) where
  Unmoved-IsKeptByProcer : IsKeptByProcer (Unmoved ready t)
  Unmoved-IsKeptByProcer = record {
    counters_kept = λ s suspend mmp mps lps pending h. h;
    request_kept = λ s io h. h;
    sync_kept = λ s image h. h;
    arrive_quantum_kept = λ s image h. h;
  }

module _ {D : Type 0} ⦃c : Collections⦄ ⦃st : Strings⦄ ⦃d : Doubles D⦄ where
  -- A round that ends has taken the first process of LPL and left the others in their order.
  pub procer_round-takes :
      (fuel : ℕ) (signals : ℕ → Bool) (s : System D)
      → IsCounted s.lpl
      → Holds
          (λ s'.
            (image : ProcessImage D) × (s.lpl.queue ≡ image ∷ s'.lpl.queue)
            × (s'.settings ≡ s.settings))
          (procer_round fuel signals s)
  unfolding procer_round start
  procer_round-takes fuel signals s counts = elim (pop-cases s.lpl counts) [
    | inl empty ↦ rw empty Holds-waits
    | inr (image, rest, e, popped, taken) ↦
        let left : Channel (ProcessImage D) = record { queue = rest; empty = length rest } in
        rw (taken, popped)
          (Holds-after (code_segment_creator image.code) λ code f.
            Holds->>= (λ m. Unmoved left s.settings m.system × IsStopped code m)
              (process_execution code signals fuel (start image (record s { lpl = left })))
              (run-kept (Unmoved left s.settings) (Unmoved-IsKeptByProcer left s.settings) code
                signals fuel _ (refl, refl))
              λ m h.
                Holds-weaken
                  (leave-kept (Unmoved left s.settings) (Unmoved-IsKeptByProcer left s.settings)
                    code m h.0)
                  λ s' k. (
                    image,
                    e ∙ ap (λ (l : Channel (ProcessImage D)). image ∷ l.queue) (sym k.0),
                    k.1,
                  ))
  ]

  -- Where LPL is not empty the dispatcher does not wait, and what it runs is the first process.
  pub procer_round-next :
      (fuel : ℕ) (signals : ℕ → Bool) (s : System D) (image : ProcessImage D)
      (rest : List (ProcessImage D))
      → IsCounted s.lpl
      → s.lpl.queue ≡ image ∷ rest
      → procer_round fuel signals s
        ≡ dispatch fuel signals image
            (record s { lpl = record { queue = rest; empty = length rest } })
  unfolding procer_round
  procer_round-next fuel signals s image rest counts e =
      rw (ap sem_wait (counts ∙ ap length e), ap queue_pop e ∙ c.pop_law image rest) refl
