-- ===== src/Examples/Runs.antt =====
-- The theorems on runs, stacks and reports at concrete processes.
use sisop_2012_2c.Shared.{
  ℕ, ◌+◌, ◌<◌, ◌≡◌, refl, Bool, false, List, [], ◌∷◌, CString, codes, arith, length,
}
use sisop_2012_2c.Shared.Number.{print_nat}
use sisop_2012_2c.Shared.Outcome.{ok, fault, Holds}
use sisop_2012_2c.Process.{Frame}
use sisop_2012_2c.Machine.{Machine}
use sisop_2012_2c.Execution.{process_execution, reorder_stack}
use sisop_2012_2c.Execution.Quantum.{IsStopped, WithinQuantum, process_execution-quantum}
use sisop_2012_2c.Execution.Stack.{reorder_stack-rotates}
use sisop_2012_2c.Message.{frame_text, stack_structure_msg}
use sisop_2012_2c.Message.Frames.{stack_structure_msg-overreads}
use sisop_2012_2c.Examples.Values.{lists, strings, doubles, busy, process}

-- No signal arrives.
abbrev quiet : ℕ → Bool
quiet n = false

abbrev lines : List CString
lines = codes "variables x" ∷ codes "x=1+2" ∷ codes "fin_programa" ∷ []

abbrev machine : Machine ℕ
machine = record {
  system = busy;
  image = process 4 2;
  io_block = false;
  quantum_count = 0;
  rafaga = 0;
  slept = 0;
  checks = 0;
}

process_execution-quantum_example :
    Holds
      (λ n. WithinQuantum busy.settings n × IsStopped lines n)
      (process_execution lines quiet 20 machine)
process_execution-quantum_example = process_execution-quantum lines quiet 20 machine refl

abbrev call : ℕ → CString → Frame
call line name = record { function_name = name; pc = line + 5; linecall = line }

reorder_stack-rotates_example :
    reorder_stack (call 1 (codes "f") ∷ call 9 (codes "h") ∷ []) (call 4 (codes "g"))
    ≡ ok (call 4 (codes "g") ∷ call 1 (codes "f") ∷ [], call 9 (codes "h"))
reorder_stack-rotates_example =
    reorder_stack-rotates (call 1 (codes "f") ∷ []) (call 9 (codes "h")) (call 4 (codes "g"))

short :
    length (frame_text (call 1 (codes "f"))) + length (frame_text (call 4 (codes "g"))) + 2 < 65536
unfolding print_nat
short = omega arith

stack_structure_msg-overreads_example :
    (stack_structure_msg [] ≡ ok [])
    × (stack_structure_msg (call 1 (codes "f") ∷ []) ≡ ok (frame_text (call 1 (codes "f"))))
    × (stack_structure_msg (call 1 (codes "f") ∷ call 4 (codes "g") ∷ []) ≡ fault)
stack_structure_msg-overreads_example =
    stack_structure_msg-overreads (call 1 (codes "f")) (call 4 (codes "g")) [] short

-- A blank line, a tag and the end.
abbrev short_lines : List CString
short_lines = [] ∷ codes "a:" ∷ codes "fin_programa" ∷ []

abbrev at_end : Machine ℕ
at_end = record machine { image = record (process 4 2) { pc = 2 }; checks = 3 }
