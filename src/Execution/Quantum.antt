-- ===== src/Execution/Quantum.antt =====
-- Why a run stops, and that it never takes more than its quantum.
use sisop_2012_2c.Shared.{
  ℕ, zero, suc, ◌≡◌, refl, sym, ap, ◌∙◌, Bool, true, false, not, ◌&&◌, List, CString, codes, str_eq,
  some, get_elem?, Bool-cases, inl, inr, arith, if◌then◌else◌, ◌==◌,
}
use sisop_2012_2c.Shared.Int.{ℤ, pos, negsuc, gtb_ℤ}
use sisop_2012_2c.Shared.Outcome.{
  Holds, Holds-ok, Holds-hang, Holds->>=, Holds-after, deref, deref-eq-ok,
}
use sisop_2012_2c.Commons.{Collections, Strings, list_size, list_add}
use sisop_2012_2c.Doubles.{Doubles}
use sisop_2012_2c.System.{Settings}
use sisop_2012_2c.Machine.{Machine}
use sisop_2012_2c.Execution.{
  goes, calls, runs, poll, process_step, stack_execution, function_execution, process_loop,
  process_execution, set_stack,
}
use sisop_2012_2c.Execution.Preserve.{
  IsKeptByTests, NextP, process_step-kept, stack_execution-kept, function_execution-kept, &&-right,
}

-- The loop's condition is false: the program is at its end, or SUSPEND, a blocking request or the
-- quantum stops it.
abbrev pub IsStopped : {D : Type 0} → List CString → Machine D → Type 0
IsStopped code m =
    (line : CString) × (get_elem? code m.image.pc ≡ some line)
    × ((not (str_eq line (codes "fin_programa")) && runs m) ≡ false)

module _ {D : Type 0} ⦃c : Collections⦄ ⦃s : Strings⦄ ⦃d : Doubles D⦄ (P Q : Machine D → Type 0)
    (k : IsKeptByTests P Q) (code : List CString) (signals : ℕ → Bool) where
  process_loop-stops :
      (fuel : ℕ) (m : Machine D)
      → P m
      → Holds (λ n. P n × IsStopped code n) (process_loop code signals fuel m)
  unfolding process_loop
  process_loop-stops zero m p = Holds-hang
  process_loop-stops (suc fuel) before p0 =
      let m = poll signals before in
      let p = k.poll_kept signals before p0 in
      let run = function_execution code signals fuel in
      let run-kept = function_execution-kept P Q k code signals fuel in
      Holds-after (deref (get_elem? code m.image.pc)) λ line e.
        elim (Bool-cases (not (str_eq line (codes "fin_programa")) && runs m)) [
          | inr stops ↦ rw stops (Holds-ok m (p, (line, deref-eq-ok _ e, stops)))
          | inl goes_on ↦ rw goes_on (elim (Bool-cases (list_size m.image.stack == 0)) [
            | inr pending ↦ rw pending (
                Holds->>= P (stack_execution run m)
                  (stack_execution-kept P Q k code run m run-kept p)
                  λ n pn. process_loop-stops fuel n pn)
            | inl none_pending ↦ rw none_pending (
                Holds->>= (NextP P Q k code) (process_step code m)
                  (process_step-kept P Q k code m (k.enter m (&&-right _ (runs m) goes_on) p))
                  (elim [
                    | goes n ↦ λ pn. process_loop-stops fuel n pn
                    | calls n callee ↦ λ pn.
                        let entered = set_stack n (list_add n.image.stack callee) in
                        Holds->>= P (stack_execution run entered)
                          (stack_execution-kept P Q k code run entered run-kept
                            (k.set_image_before n _ pn))
                          λ r pr. process_loop-stops fuel r pr
                  ]))
          ])
        ]

  pub process_execution-stops :
      (fuel : ℕ) (m : Machine D)
      → P m
      → Holds (λ n. P n × IsStopped code n) (process_execution code signals fuel m)
  unfolding process_execution
  process_execution-stops fuel m p =
      Holds->>= P (stack_execution (function_execution code signals fuel) m)
        (stack_execution-kept P Q k code _ m (function_execution-kept P Q k code signals fuel) p)
        λ n pn. process_loop-stops fuel n pn

module _ {D : Type 0} (t : Settings D) where
  -- The settings are those of the start, and the quantum is not passed.
  abbrev pub WithinQuantum : Machine D → Type 0
  WithinQuantum m = (m.system.settings ≡ t) × (gtb_ℤ (pos m.quantum_count) t.quantum ≡ false)

  -- An instruction is left.
  abbrev pub BelowQuantum : Machine D → Type 0
  BelowQuantum m = (m.system.settings ≡ t) × (gtb_ℤ t.quantum (pos m.quantum_count) ≡ true)

  gtb_ℤ-suc : (q : ℤ) (n : ℕ) → gtb_ℤ q (pos n) ≡ true → gtb_ℤ (pos (suc n)) q ≡ false
  gtb_ℤ-suc (pos q) n h = ground arith
  gtb_ℤ-suc (negsuc q) n h = ground arith

  gtb_ℤ-not : (q : ℤ) (n : ℕ) → gtb_ℤ q (pos n) ≡ true → gtb_ℤ (pos n) q ≡ false
  gtb_ℤ-not (pos q) n h = ground arith
  gtb_ℤ-not (negsuc q) n h = ground arith

  gtb_ℤ-charge :
      (rr : Bool) (n : ℕ)
      → gtb_ℤ t.quantum (pos n) ≡ true
      → gtb_ℤ (pos (if rr then suc n else n)) t.quantum ≡ false
  gtb_ℤ-charge true n h = gtb_ℤ-suc t.quantum n h
  gtb_ℤ-charge false n h = gtb_ℤ-not t.quantum n h

module _ {D : Type 0} ⦃c : Collections⦄ ⦃d : Doubles D⦄ (t : Settings D) where
  quantum-IsKept : IsKeptByTests (WithinQuantum t) (BelowQuantum t)
  quantum-IsKept = record {
    by_steps = record {
      set_image = λ m p q. q;
      sleep_kept = λ seconds m q. q;
      say_kept = λ text m q. q;
      request_kept = λ flag time m q. q;
      block_kept = λ m q. q;
      leave = λ m q. (q.0, gtb_ℤ-not t t.quantum m.quantum_count q.1);
      charge_kept = λ m q. (q.0, gtb_ℤ-charge t _ m.quantum_count q.1);
    };
    set_image_before = λ m p h. h;
    poll_kept = λ signals m h. h;
    enter = λ m going h. (
      h.0,
      ap (λ u. gtb_ℤ u.quantum (pos m.quantum_count)) (sym h.0)
          ∙ &&-right (not m.io_block) _ (&&-right (not m.system.suspend) _ going),
    );
  }

module _ {D : Type 0} ⦃c : Collections⦄ ⦃s : Strings⦄ ⦃d : Doubles D⦄ where
  -- A run that starts within its quantum ends within it, under any signals and with calls of any
  -- depth, and it ends because the program is at its end, or SUSPEND is set, or the process waits for
  -- a blocking request, or the quantum is used up.
  pub process_execution-quantum :
      (code : List CString) (signals : ℕ → Bool) (fuel : ℕ) (m : Machine D)
      → gtb_ℤ (pos m.quantum_count) m.system.settings.quantum ≡ false
      → Holds
          (λ n. WithinQuantum m.system.settings n × IsStopped code n)
          (process_execution code signals fuel m)
  process_execution-quantum code signals fuel m h =
      process_execution-stops (WithinQuantum m.system.settings) (BelowQuantum m.system.settings)
        (quantum-IsKept m.system.settings) code signals fuel m (refl, h)
