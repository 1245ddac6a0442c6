-- ===== src/Execution.antt =====
-- The interpreter loops of PROCER/PP/src/procer_defs.c: `processExecution` over the program's lines
-- and `functionExecution` over a function's, with `stackExecution` between them. The loops run on
-- fuel, since a script need not end; `hang` is also what a run comes to that needs more.
-- Between two tests of a loop's condition SIGUSR1 may arrive: `signals n` says whether it has before
-- the n-th test. Other threads do not run between the tests of one execution.
pub mod Quantum
pub mod Preserve
pub mod Plain
pub mod Bound
pub mod Stack
pub mod Fuel
use sisop_2012_2c.Shared.{
  ℕ, zero, suc, ◌+◌, ◌-◌, ◌%◌, Bool, true, false, not, ◌&&◌, ◌||◌, List, [], ◌∷◌, ◌++◌, Option,
  none, some, CString, codes, str_eq, get_elem?, leb, ◌==◌, if◌then◌else◌,
}
use sisop_2012_2c.Shared.Int.{ℤ, pos, gtb_ℤ}
use sisop_2012_2c.Shared.Outcome.{Outcome, ok, fault, hang, deref, ◌>>=◌}
use sisop_2012_2c.Commons.{
  Collections, Strings, list_size, list_add, list_remove, string_starts_with, string_ends_with,
}
use sisop_2012_2c.Process.{ProcessImage, Frame}
use sisop_2012_2c.Doubles.{Doubles}
use sisop_2012_2c.System.{System}
use sisop_2012_2c.Script.{advance, find_function_line}
use sisop_2012_2c.Machine.{
  Machine, char_at, called_name, set_pc, variables_step, imprimir_step, ssc_step, snc_step,
  assign_step, assign_io_step, assign_io_function_step, io_step,
}
use sisop_2012_2c.Shared.Int.{to_u32, to_u16}

-- What a line comes to: the next machine, or a call to be made.
pub data Next (D : Type 0) : Type 0 where
  goes : Machine D → Next D
  calls : Machine D → Frame → Next D

module _ {D : Type 0} where
  abbrev pub set_stack : Machine D → List Frame → Machine D
  set_stack m stack = record m { image = record (m.image) { stack = stack } }

  -- !SUSPEND && !ioBlockInterrupt && quantumCount < quantum
  abbrev pub runs : Machine D → Bool
  runs m =
      not (m.system.suspend)
      && (not (m.io_block) && gtb_ℤ (m.system.settings.quantum) (pos (m.quantum_count)))

  -- A test of a loop's condition reads SUSPEND.
  abbrev pub poll : (ℕ → Bool) → Machine D → Machine D
  poll signals m = record m {
    checks = suc (m.checks);
    system = record (m.system) { suspend = m.system.suspend || signals (m.checks) };
  }

  abbrev after : Outcome (Machine D) → Outcome (Next D)
  after result = do m ← result; ok (goes m)

-- code[*PC][1] == '=', and what stands behind it begins with "io("
unfoldable pub assigns_io : ⦃s : Strings⦄ → CString → Outcome (Bool × Bool)
assigns_io line = do
  second ← char_at line 1
  if second == b'='
      then (do text ← advance 2 line; ok (true, string_starts_with text (codes "io(")))
      else ok (false, false)

module _ {D : Type 0} ⦃c : Collections⦄ ⦃s : Strings⦄ ⦃d : Doubles D⦄ (code : List CString) where
  -- The line `name()`: a new element of the stack.
  pub call_step : ℕ → CString → Machine D → Outcome (Next D)
  call_step pc line m = do
    let name = called_name line
    target ← find_function_line code name
    ok (calls m (record { function_name = name; pc = target; linecall = pc }))

  -- The chain of tests that the two loops share, from x=expression on.
  unfoldable pub common_step :
      (CString → Machine D → Outcome (Machine D))
      → (ℤ → ℕ)
      → ℕ
      → CString
      → Machine D
      → Outcome (Next D)
  unfolding assigns_io call_step called_name
  common_step assign_io width pc line m = do
    (assigns, io) ← assigns_io line
    if assigns
        then after (if io then assign_io line m else assign_step line m)
        else if string_starts_with line (codes "io(")
        then after (io_step width pc line m)
        else if string_ends_with line (codes "()")
        then call_step pc line m
        else ok (goes m)

  -- One round of the loop of processExecution on a line, where no call is pending.
  unfoldable pub process_step : Machine D → Outcome (Next D)
  unfolding common_step
  process_step before = do
    let pc = (before.image.pc + 1) % 65536
    let m = set_pc before pc
    line ← deref (get_elem? code pc)
    if str_eq line [] || string_ends_with line (codes ":")
        then ok (goes m)
        else if string_starts_with line (codes "variables")
        then after (variables_step line m)
        else if string_starts_with line (codes "imprimir")
        then after (imprimir_step line m)
        else if string_starts_with line (codes "ssc")
        then after (ssc_step code line m)
        else if string_starts_with line (codes "snc")
        then after (snc_step code line m)
        else common_step (assign_io_step pc) to_u32 pc line m

  -- One round of the loop of functionExecution, at the PC that the element has been moved to.
  pub function_step : ℕ → Machine D → Outcome (Next D)
  unfolding common_step
  function_step pc m = do
    line ← deref (get_elem? code pc)
    if str_eq line [] || string_ends_with line (codes ":")
        then ok (goes m)
        else if string_starts_with line (codes "imprimir")
        then after (imprimir_step line m)
        else common_step (assign_io_function_step pc) to_u16 pc line m

module _ ⦃c : Collections⦄ where
  -- for (size = list_size; size > 0; size--) list_add(newStack, list_remove(*stack, 0))
  move_all : ℕ → List Frame → List Frame → Outcome (List Frame)
  move_all zero stack new_stack = ok new_stack
  move_all (suc size) stack new_stack = do
    let removed = list_remove stack 0
    element ← deref removed.0
    move_all size removed.1 (list_add new_stack element)

  -- The element that runs goes under the stack, and the one on top of it runs instead.
  pub reorder_stack : List Frame → Frame → Outcome (List Frame × Frame)
  unfolding move_all
  reorder_stack stack element = do
    let removed = list_remove stack (list_size stack - 1)
    new_element ← deref removed.0
    new_stack ← move_all (list_size removed.1) removed.1 (list_add [] element)
    ok (new_stack, new_element)

module _ {D : Type 0} ⦃c : Collections⦄ where
  -- The last element of the stack runs, if there is one.
  unfoldable pub stack_execution :
      (Frame → Machine D → Outcome (Machine D)) → Machine D → Outcome (Machine D)
  stack_execution run m =
      let stack = m.image.stack in
      if list_size stack == 0 then ok m else (do
        let removed = list_remove stack (list_size stack - 1)
        element ← deref removed.0
        run element (set_stack m removed.1))

  -- After a call: nothing is left on the stack, or the stack is reordered.
  pub after_call : Frame → Machine D → Outcome (Frame × Machine D)
  unfolding reorder_stack
  after_call element m = if list_size (m.image.stack) == 0 then ok (element, m) else (do
    (new_stack, new_element) ← reorder_stack (m.image.stack) element
    ok (new_element, set_stack m new_stack))

-- The line is the end of the function of this element.
abbrev pub ends_function : ⦃s : Strings⦄ → CString → Frame → Bool
ends_function line element =
    string_starts_with line (codes "fin_funcion") && string_ends_with line element.function_name

module _ {D : Type 0} ⦃c : Collections⦄ ⦃s : Strings⦄ ⦃d : Doubles D⦄ (code : List CString)
    (signals : ℕ → Bool) where
  pub function_execution : ℕ → Frame → Machine D → Outcome (Machine D)
  function_execution zero element before = hang
  function_execution (suc fuel) element before = do
    let m = poll signals before
    line ← deref (get_elem? code element.pc)
    elim (not (ends_function line element) && runs m) [
      | false ↦
          if ends_function line element
          then ok m
          else ok (set_stack m (list_add (m.image.stack) element))
      | true ↦ (do
        let moved = record element { pc = (element.pc + 1) % 65536 }
        next ← function_step code moved.pc m
        elim next [
          | goes m' ↦ function_execution fuel moved m'
          | calls m' callee ↦ (do
            returned ←
                stack_execution (function_execution fuel)
                  (set_stack m' (list_add (m'.image.stack) callee))
            (element', m'') ← after_call moved returned
            function_execution fuel element' m'')
        ])
    ]

  -- The loop of processExecution.
  unfoldable pub process_loop : ℕ → Machine D → Outcome (Machine D)
  unfolding str_eq
  process_loop zero before = hang
  process_loop (suc fuel) before = do
    let m = poll signals before
    line ← deref (get_elem? code (m.image.pc))
    elim (not (str_eq line (codes "fin_programa")) && runs m) [
      | false ↦ ok m
      | true ↦ elim (list_size (m.image.stack) == 0) [
        | false ↦ (do m' ← stack_execution (function_execution fuel) m; process_loop fuel m')
        | true ↦ (do
          next ← process_step code m
          elim next [
            | goes m' ↦ process_loop fuel m'
            | calls m' callee ↦ (do
              m'' ←
                  stack_execution (function_execution fuel)
                    (set_stack m' (list_add (m'.image.stack) callee))
              process_loop fuel m'')
          ])
      ]
    ]

  -- A pending call runs before the first test.
  unfoldable pub process_execution : ℕ → Machine D → Outcome (Machine D)
  process_execution fuel m = do
    m' ← stack_execution (function_execution fuel) m
    process_loop fuel m'
