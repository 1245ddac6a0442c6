-- ===== src/Examples/Reaching.antt =====
-- The theorems on clients, threads and the interpreter's words at concrete values.
use sisop_2012_2c.Shared.{
  ℕ, ◌≡◌, refl, inl, inr, true, false, List, [], ◌∷◌, ◌++◌, CString, codes, some, arith, str_eq,
}
use sisop_2012_2c.Shared.Int.{pos}
use sisop_2012_2c.Shared.Outcome.{ok, fault, ◌>>=◌}
use sisop_2012_2c.System.{System}
use sisop_2012_2c.System.Consistent.{IsConsistent}
use sisop_2012_2c.Wire.{Stream, serialization_pri}
use sisop_2012_2c.Server.{byte}
use sisop_2012_2c.Lts.{connection, lts_event}
use sisop_2012_2c.Lts.Admission.{decision, connection-admits}
use sisop_2012_2c.Sts.{sts_round}
use sisop_2012_2c.Sts.Conservation.{Conserves}
use sisop_2012_2c.Sts.Ready.{sts_round-serves}
use sisop_2012_2c.Sts.Drain.{new, resumed, end_of_quantum, end_of_io}
use sisop_2012_2c.Script.{change_pc, find_function_line}
use sisop_2012_2c.Script.Jumps.{change_pc-first, find_function_line-first}
use sisop_2012_2c.Machine.Expression.{evaluate}
use sisop_2012_2c.Machine.Expression.Sum.{Term, sum, evaluate-sum}
use sisop_2012_2c.Machine.{Machine}
use sisop_2012_2c.Examples.Values.{
  lists, strings, doubles, settings, busy, busy-IsOrder, process, short_script, short_script-IsText,
  empty_system,
}

connection-admits_example :
    (st : Stream) × (serialization_pri b'N' short_script (pos 2) ≡ ok st)
    × (lts_event empty_system (connection 7 (byte b'#') true (some (st.bytes ++ [])))
        ≡ ok (
            decision empty_system 7 short_script (pos 2) empty_system.mps_sem empty_system.mmp_sem))
connection-admits_example =
    connection-admits empty_system 7 short_script (pos 2) [] (omega arith) short_script-IsText
      (omega arith)

abbrev connected : System ℕ
connected =
    (decision empty_system 7 short_script (pos 2) empty_system.mps_sem empty_system.mmp_sem).0

busy-IsConsistent : IsConsistent settings.queues_array busy
busy-IsConsistent = (refl, refl, refl, refl, refl, refl, refl, refl, refl)

abbrev loop_lines : List CString
loop_lines = codes "a:" ∷ codes "x=1" ∷ []

change_pc-first_example :
    (change_pc (loop_lines ++ codes "b:" ∷ []) (codes "b") ≡ ok 2)
    × (change_pc (loop_lines ++ codes "b:" ∷ []) (codes "b;3") ≡ ok 2)
    × (change_pc loop_lines (codes "b") ≡ fault)
unfolding str_eq
change_pc-first_example =
    change_pc-first (codes "b") (codes "3") loop_lines [] loop_lines (refl, _) (refl, (refl, _))
      (omega arith) (refl, (refl, _)) (omega arith)

find_function_line-first_example :
    (find_function_line (loop_lines ++ codes "comienzo_funcion f" ∷ []) (codes "f") ≡ ok 2)
    × (find_function_line loop_lines (codes "f") ≡ fault)
unfolding str_eq
find_function_line-first_example =
    find_function_line-first (codes "f") loop_lines [] loop_lines (refl, (refl, _)) (omega arith)
      (refl, (refl, _)) (omega arith)

abbrev minus_two : Term
minus_two = record { minus = true; word = codes "2" }

evaluate-sum_example : evaluate (some []) (codes "=15-2;4") ≡ (
    sum (some []) (pos 0) (record { minus = false; word = codes "15" } ∷ minus_two ∷ []) >>= λ v.
    ok (v, codes ";4"))
evaluate-sum_example =
    evaluate-sum (some []) (codes "15") (minus_two ∷ []) (codes ";4") (refl, (refl, _))
      ((refl, _), _) refl

abbrev running : Machine ℕ
running = record {
  system = busy;
  image = process 4 2;
  io_block = false;
  quantum_count = 0;
  rafaga = 0;
  slept = 0;
  checks = 0;
}

sts_round-serves_example :
    (s' : System ℕ) × (sts_round busy ≡ ok s')
    × Conserves settings.queues_array end_of_io new resumed end_of_quantum busy s'
sts_round-serves_example =
    sts_round-serves settings.queues_array end_of_io new resumed end_of_quantum busy busy-IsOrder
      busy-IsConsistent (inl (inr refl)) (λ e. omega arith)
