-- ===== src/Examples/Rounds.antt =====
-- A script that jumps for ever, under a quantum of 2.
use sisop_2012_2c.Shared.{
  ℕ, ◌≡◌, refl, List, [], ◌∷◌, some, CString, codes, Bool, true, false, str_eq, ◌==◌, arith,
}
use sisop_2012_2c.Shared.Int.{pos}
use sisop_2012_2c.Shared.Outcome.{Comes}
use sisop_2012_2c.Machine.{Machine}
use sisop_2012_2c.Execution.{process_execution, assigns_io}
use sisop_2012_2c.Execution.Quantum.{IsStopped}
use sisop_2012_2c.Execution.Bound.{process_execution-stops_rr}
use sisop_2012_2c.Execution.Plain.{IsPlain}
use sisop_2012_2c.Examples.Values.{lists, strings, doubles, busy, process}

abbrev jumps : List CString
jumps = codes "a:" ∷ codes "snc,x,a" ∷ codes "fin_programa" ∷ []

abbrev jumper : Machine ℕ
jumper = record {
  system = busy;
  image = record (process 4 2) {
    vars = some (
        record { var_name = b'x'; var_value = pos 1 }
        ∷ record { var_name = 0; var_value = pos 0 }
        ∷ []);
  };
  io_block = false;
  quantum_count = 0;
  rafaga = 0;
  slept = 0;
  checks = 0;
}

-- The signal comes at the third test.
abbrev late : ℕ → Bool
late n = n == 2

jumps-IsPlain : IsPlain jumps
unfolding assigns_io str_eq
jumps-IsPlain = (refl, (λ e. cc), (refl, (λ e. cc), (refl, (λ e. cc), _)))

jumper-rr : str_eq jumper.system.settings.alg (codes "RR") ≡ true
unfolding str_eq
jumper-rr = refl

process_execution-stops_rr_example :
    Comes (IsStopped jumps) (process_execution jumps late 12 jumper)
process_execution-stops_rr_example =
    process_execution-stops_rr jumps jumps-IsPlain (omega arith) late jumper 12 jumper-rr refl
      (omega arith) (omega arith)
