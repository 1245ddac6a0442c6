-- ===== src/Execution/Bound.antt =====
-- How many rounds a run under RR takes at most, where no line is a call.
use sisop_2012_2c.Shared.{
  ℕ, zero, suc, ◌+◌, ◌*◌, ◌-◌, ◌<◌, ◌≤◌, ◌≡◌, refl, ap, ◌∙◌, inl, inr, true, Bool, not, ◌&&◌, List,
  [], CString, codes, str_eq, length, get_elem?, ltb→lt, ◌==◌, Bool-cases, arith,
}
use sisop_2012_2c.Shared.Int.{pos, gtb_ℤ, pos_part, neg_part}
use sisop_2012_2c.Shared.Outcome.{
  deref, deref-eq-ok, Comes, Any, Settles, Settles-ok, Settles->>=, deref-Settles,
}
use sisop_2012_2c.Commons.{Collections, Strings, list_size}
use sisop_2012_2c.Doubles.{Doubles}
use sisop_2012_2c.System.{Settings}
use sisop_2012_2c.Memory.Progress.{IsSized}
use sisop_2012_2c.Machine.{Machine}
use sisop_2012_2c.Execution.{
  goes, calls, runs, poll, process_step, stack_execution, process_loop, process_execution,
}
use sisop_2012_2c.Execution.Preserve.{&&-right}
use sisop_2012_2c.Execution.Quantum.{IsStopped}
use sisop_2012_2c.Execution.Plain.{IsPlain, Advances, get_elem?-lt, process_step-Advances}

list_size-empty : ⦃c : Collections⦄ {A : Type 0} (l : List A) → l ≡ [] → (list_size l == 0) ≡ true
list_size-empty ⦃c⦄ l e = rw e (rw c.size_law refl)

-- One of the units is taken, wherever the PC goes.
unit-less :
    (units l pc pc' fuel : ℕ)
    → 0 < units
    → units * suc l + (l - pc) < suc fuel
    → (units - 1) * suc l + (l - pc') < fuel
unit-less zero l pc pc' fuel some_left h = absurd (omega (arith, some_left))
unit-less (suc units) l pc pc' fuel some_left h = grind (arith, h)

runs-lt :
    {D : Type 0} (m : Machine D)
    → runs m ≡ true
    → m.quantum_count < pos_part m.system.settings.quantum
runs-lt m h =
    let quantum = m.system.settings.quantum in
    let within =
      &&-right (not m.io_block) (gtb_ℤ quantum (pos m.quantum_count))
        (&&-right (not m.system.suspend) _ h) in
    omega (arith, ltb→lt (m.quantum_count + neg_part quantum) (pos_part quantum + 0) within)

module _ {D : Type 0} ⦃c : Collections⦄ ⦃s : Strings⦄ ⦃d : Doubles D⦄ (code : List CString)
    (plain : IsPlain code) (short : length code ≤ 65535) where
  module _ (signals : ℕ → Bool) (t : Settings D) (rr : str_eq t.alg (codes "RR") ≡ true) where
    -- `units` are left of the quantum, and the fuel is more than the lines that they, and the part of
    -- the program ahead, can take.
    process_loop-Settles :
        (fuel units : ℕ) (m : Machine D)
        → m.system.settings ≡ t
        → m.image.stack ≡ []
        → IsSized m.image.vars
        → pos_part t.quantum ≤ units + m.quantum_count
        → units * suc (length code) + (length code - m.image.pc) < fuel
        → Settles (IsStopped code) (process_loop code signals fuel m)
    unfolding process_loop
    process_loop-Settles zero units m settings none_pending sized left bound =
        absurd (omega (arith, bound))
    process_loop-Settles (suc fuel) units before settings none_pending sized left bound =
        let m = poll signals before in
        let of_line = deref (get_elem? code m.image.pc) in
        Settles->>= Any of_line (deref-Settles (get_elem? code m.image.pc)) λ line e u.
          let at = deref-eq-ok (get_elem? code m.image.pc) e in
          elim (Bool-cases (not (str_eq line (codes "fin_programa")) && runs m)) [
            | inr stops ↦ rw stops (Settles-ok m (line, at, stops))
            | inl goes_on ↦ rw goes_on (
                rw (list_size-empty m.image.stack none_pending) (
                  Settles->>= (Advances code plain short m) (process_step code m)
                    (process_step-Advances code plain short m sized
                      (ap (λ (u : Settings D). str_eq u.alg (codes "RR")) settings ∙ rr))
                    (elim [
                      | goes n ↦ λ f (stack, same, still, progress).
                          let going = runs-lt m (&&-right _ (runs m) goes_on) in
                          let quantum = ap (λ (u : Settings D). pos_part u.quantum) settings in
                          let one_left : 0 < units = omega (arith, left, going, quantum) in
                          let same' = same ∙ settings in
                          let none_pending' = stack ∙ none_pending in
                          elim progress [
                            | inl count ↦
                                process_loop-Settles fuel (units - 1) n same' none_pending' still
                                  (omega (arith, left, count, one_left))
                                  (unit-less units (length code) m.image.pc n.image.pc fuel one_left
                                    bound)
                            | inr (count, moves, inside) ↦
                                process_loop-Settles fuel units n same' none_pending' still
                                  (omega (arith, left, count))
                                  (omega (
                                    arith,
                                    bound,
                                    moves,
                                    inside,
                                    short,
                                    get_elem?-lt code m.image.pc line at,
                                  ))
                          ]
                      | calls n callee ↦ λ f advanced. absurd advanced
                    ])))
          ]

  -- Under RR a process whose script has at most 65535 lines, of which none is a call or assigns what io
  -- gives, cannot keep the dispatcher: within rounds for its quantum times the lines and one, and those
  -- lines, whatever signals come, the run stops at a line for one of the reasons of its condition, or
  -- faults at a line. No call is pending, and the data segment has at most 65535 entries.
  pub process_execution-stops_rr :
      (signals : ℕ → Bool) (m : Machine D) (fuel : ℕ)
      → str_eq m.system.settings.alg (codes "RR") ≡ true
      → m.image.stack ≡ []
      → IsSized m.image.vars
      → pos_part m.system.settings.quantum * suc (length code) + length code < fuel
      → Comes (IsStopped code) (process_execution code signals fuel m)
  unfolding process_execution stack_execution
  process_execution-stops_rr signals m fuel rr none_pending sized enough =
      let units = pos_part m.system.settings.quantum in
      rw (list_size-empty m.image.stack none_pending) (
        (process_loop-Settles signals m.system.settings rr fuel units m refl none_pending sized
          (omega arith) (omega (arith, enough))).comes)
