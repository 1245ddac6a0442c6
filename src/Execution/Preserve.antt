-- ===== src/Execution/Preserve.antt =====
-- What the loops of the interpreter keep, where the instructions keep it: `P` holds at every test of a
-- condition, and a condition that lets the loop go on gives `Q`.
use sisop_2012_2c.Shared.{
  ℕ, zero, suc, ◌+◌, ◌-◌, ◌%◌, ◌||◌, ◌≡◌, [], get_elem?, Bool, true, false, not, ◌&&◌, List,
  CString, if◌then◌else◌, Bool-cases, inl, inr, codes, str_eq, ◌==◌,
}
use sisop_2012_2c.Shared.Int.{ℤ, to_u32, to_u16}
use sisop_2012_2c.Shared.Outcome.{
  Outcome, ok, Holds, Holds-ok, Holds-hang, Holds-if, Holds->>=, Holds-after, deref, ◌>>=◌,
}
use sisop_2012_2c.Commons.{
  Collections, Strings, list_size, list_add, list_remove, string_starts_with, string_ends_with,
}
use sisop_2012_2c.Process.{ProcessImage, Frame}
use sisop_2012_2c.Doubles.{Doubles}
use sisop_2012_2c.Machine.{
  Machine, set_pc, called_name, variables_step, imprimir_step, ssc_step, snc_step, assign_step,
  io_step, assign_io_step, assign_io_function_step,
}
use sisop_2012_2c.Script.{find_function_line}
use sisop_2012_2c.Machine.Preserve.{
  IsKept, variables_step-kept, imprimir_step-kept, ssc_step-kept, snc_step-kept, assign_step-kept,
  io_step-kept, assign_io_step-kept, assign_io_function_step-kept,
}
use sisop_2012_2c.Execution.{
  Next, goes, calls, runs, poll, process_step, function_step, stack_execution, after_call,
  function_execution, common_step, call_step, set_stack, assigns_io, reorder_stack, ends_function,
}

pub &&-right : (a b : Bool) → (a && b) ≡ true → b ≡ true
&&-right true b h = h
&&-right false b h = cc

pub record IsKeptByTests {D : Type 0} ⦃c : Collections⦄ ⦃d : Doubles D⦄ (P Q : Machine D → Type 0)
    : Type 0 where
  pub by_steps : IsKept P Q
  pub set_image_before : (m : Machine D) (p : ProcessImage D) → P m → P (record m { image = p })
  pub poll_kept : (signals : ℕ → Bool) (m : Machine D) → P m → P (poll signals m)
  pub enter : (m : Machine D) → runs m ≡ true → P m → Q m

module _ {D : Type 0} ⦃c : Collections⦄ ⦃s : Strings⦄ ⦃d : Doubles D⦄ (P Q : Machine D → Type 0)
    (k : IsKeptByTests P Q) (code : List CString) where
  -- A line leaves a machine of the first kind, whether it makes a call or not.
  abbrev pub NextP : Next D → Type 0
  NextP (goes m) = P m
  NextP (calls m f) = P m

  after-kept : (r : Outcome (Machine D)) → Holds P r → Holds NextP (do m ← r; ok (goes m))
  after-kept r h = Holds->>= P r h λ m p. Holds-ok _ p

  common_step-kept :
      (assign_io : CString → Machine D → Outcome (Machine D)) (width : ℤ → ℕ) (pc : ℕ)
      (line : CString) (m : Machine D)
      → Q m
      → Holds P (assign_io line m)
      → Holds NextP (common_step code assign_io width pc line m)
  unfolding common_step call_step
  common_step-kept assign_io width pc line m q h = Holds-after (assigns_io line) λ tests e.
      Holds-if tests.0
        (λ assigns.
          let step = (if tests.1 then assign_io line m else assign_step line m) in
          after-kept step
            (Holds-if tests.1 (λ io. h) (λ plain. assign_step-kept P Q k.by_steps line m q)))
        (λ other.
          Holds-if (string_starts_with line (codes "io("))
            (λ io.
              after-kept (io_step width pc line m) (io_step-kept P Q k.by_steps width pc line m q))
            (λ no_io.
              Holds-if (string_ends_with line (codes "()"))
                (λ call.
                  Holds-after (find_function_line code (called_name line))
                    λ target f. Holds-ok _ (k.by_steps.leave m q))
                (λ nothing. Holds-ok _ (k.by_steps.leave m q))))

  pub process_step-kept : (m : Machine D) → Q m → Holds NextP (process_step code m)
  unfolding process_step
  process_step-kept before q0 =
      let pc = (before.image.pc + 1) % 65536 in
      let m = set_pc before pc in
      let q = k.by_steps.set_image before _ q0 in
      Holds-after (deref (get_elem? code pc)) λ line e.
        Holds-if (str_eq line [] || string_ends_with line (codes ":"))
          (λ blank. Holds-ok _ (k.by_steps.leave m q))
          (λ a.
            Holds-if (string_starts_with line (codes "variables"))
              (λ variables.
                after-kept (variables_step line m) (variables_step-kept P Q k.by_steps line m q))
              (λ b.
                Holds-if (string_starts_with line (codes "imprimir"))
                  (λ imprimir.
                    after-kept (imprimir_step line m) (imprimir_step-kept P Q k.by_steps line m q))
                  (λ e.
                    Holds-if (string_starts_with line (codes "ssc"))
                      (λ ssc.
                        after-kept (ssc_step code line m)
                          (ssc_step-kept P Q k.by_steps code line m q))
                      (λ f.
                        Holds-if (string_starts_with line (codes "snc"))
                          (λ snc.
                            after-kept (snc_step code line m)
                              (snc_step-kept P Q k.by_steps code line m q))
                          (λ g.
                            common_step-kept (assign_io_step pc) to_u32 pc line m q
                              (assign_io_step-kept P Q k.by_steps pc line m q))))))

  function_step-kept : (pc : ℕ) (m : Machine D) → Q m → Holds NextP (function_step code pc m)
  unfolding function_step
  function_step-kept pc m q = Holds-after (deref (get_elem? code pc)) λ line e.
      Holds-if (str_eq line [] || string_ends_with line (codes ":"))
        (λ blank. Holds-ok _ (k.by_steps.leave m q))
        (λ a.
          Holds-if (string_starts_with line (codes "imprimir"))
            (λ imprimir.
              after-kept (imprimir_step line m) (imprimir_step-kept P Q k.by_steps line m q))
            (λ b.
              common_step-kept (assign_io_function_step pc) to_u16 pc line m q
                (assign_io_function_step-kept P Q k.by_steps pc line m q)))

  pub stack_execution-kept :
      (run : Frame → Machine D → Outcome (Machine D)) (m : Machine D)
      → ((f : Frame) (n : Machine D) → P n → Holds P (run f n))
      → P m
      → Holds P (stack_execution run m)
  unfolding stack_execution
  stack_execution-kept run m h p =
      let removed = list_remove m.image.stack (list_size m.image.stack - 1) in
      Holds-if (list_size m.image.stack == 0) (λ empty. Holds-ok m p)
        (λ some_call.
          Holds-after (deref removed.0)
            λ element e. h element (set_stack m removed.1) (k.set_image_before m _ p))

  after_call-kept : (f : Frame) (m : Machine D) → P m → Holds (λ r. P r.1) (after_call f m)
  unfolding after_call
  after_call-kept f m p =
      Holds-if (list_size m.image.stack == 0) (λ empty. Holds-ok (f, m) p)
        (λ calls_left.
          Holds-after (reorder_stack m.image.stack f) λ reordered e.
            Holds-ok (reordered.1, set_stack m reordered.0) (k.set_image_before m _ p))

  -- What follows a test of a loop's condition.
  pub tested :
      (ends : Bool) (m : Machine D) {stop go : Outcome (Machine D)}
      → P m
      → Holds P stop
      → (Q m → Holds P go)
      → Holds P (elim (not ends && runs m) [ false ↦ stop | true ↦ go ])
  tested ends m {stop = stop} {go = go} p h g = elim (Bool-cases (not ends && runs m)) [
    | inl goes_on ↦ rw goes_on (g (k.enter m (&&-right (not ends) (runs m) goes_on) p))
    | inr stops ↦ rw stops h
  ]

  pub function_execution-kept :
      (signals : ℕ → Bool) (fuel : ℕ) (f : Frame) (m : Machine D)
      → P m
      → Holds P (function_execution code signals fuel f m)
  unfolding function_execution
  function_execution-kept signals zero f m p = Holds-hang
  function_execution-kept signals (suc fuel) f before p0 =
      let m = poll signals before in
      let p = k.poll_kept signals before p0 in
      Holds-after (deref (get_elem? code f.pc)) λ line e.
        tested (ends_function line f) m p
          (Holds-if (ends_function line f) (λ ended. Holds-ok m p)
            (λ stopped. Holds-ok _ (k.set_image_before m _ p)))
          λ q.
            let moved = record f { pc = (f.pc + 1) % 65536 } in
            Holds->>= NextP (function_step code moved.pc m) (function_step-kept moved.pc m q)
              (elim [
                | goes n ↦ λ pn. function_execution-kept signals fuel moved n pn
                | calls n callee ↦ λ pn.
                    let entered = set_stack n (list_add n.image.stack callee) in
                    Holds->>= P (stack_execution (function_execution code signals fuel) entered)
                      (stack_execution-kept _ entered (function_execution-kept signals fuel)
                        (k.set_image_before n _ pn))
                      λ returned pr.
                        Holds->>= (λ r. P r.1) (after_call moved returned)
                          (after_call-kept moved returned pr)
                          λ r pr'. function_execution-kept signals fuel r.0 r.1 pr'
              ])
