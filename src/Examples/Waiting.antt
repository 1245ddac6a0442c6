-- ===== src/Examples/Waiting.antt =====
-- The turn of a ready process behind another one, which is at its end.
use sisop_2012_2c.Shared.{ℕ, ◌≡◌, refl, false, [], ◌∷◌, codes, str_eq, Bool, List, ◌++◌, inr}
use sisop_2012_2c.Shared.Outcome.{Outcome, ok}
use sisop_2012_2c.Process.{ProcessImage, counted}
use sisop_2012_2c.System.{System}
use sisop_2012_2c.Procer.{procer_round, dispatch, start, retire, finish, suspend_process}
use sisop_2012_2c.Script.{code_segment_creator, create_lines, line_length, strlen_cs}
use sisop_2012_2c.Execution.{process_execution, process_loop, stack_execution}
use sisop_2012_2c.Message.{prepare_message, data_structure_msg, stack_structure_msg, stack_msg_loop}
use sisop_2012_2c.Shared.Number.{print_nat}
use sisop_2012_2c.System.Consistent.{IsConsistent}
use sisop_2012_2c.Sts.Drain.{IsOrder-at, new, resumed, end_of_quantum, end_of_io}
use sisop_2012_2c.Threads.{procer, stay, next}
use sisop_2012_2c.Threads.Waiting.{ready-runs}
use sisop_2012_2c.Examples.Values.{lists, strings, doubles, settings, busy, busy-IsOrder, process}

abbrev ending : ProcessImage ℕ
ending = record (process 4 2) { code = codes "fin_programa" }

abbrev queue : System ℕ
queue = record busy { lpl = counted (ending ∷ process 5 2 ∷ []) }

abbrev state_of : Outcome (System ℕ) → System ℕ
state_of (ok s) = s
state_of _ = queue

first_round : procer_round 3 (λ n. false) queue ≡ ok (state_of (procer_round 3 (λ n. false) queue))
unfolding procer_round code_segment_creator create_lines line_length strlen_cs start retire finish
    suspend_process process_execution process_loop stack_execution prepare_message
    data_structure_msg stack_structure_msg stack_msg_loop print_nat str_eq
first_round = refl

abbrev after_round : System ℕ
after_round = state_of (procer_round 3 (λ n. false) queue)

queue-IsConsistent : IsConsistent settings.queues_array queue
queue-IsConsistent = (refl, refl, refl, refl, refl, refl, refl, refl, refl)

ready-runs_example :
    (behind : List (ProcessImage ℕ)) × (after_round.lpl.queue ≡ process 5 2 ∷ ([] ++ behind))
    × ((fuel : ℕ) (signals : ℕ → Bool)
        → procer_round fuel signals after_round
          ≡ dispatch fuel signals
              (process 5 2)
              (record after_round { lpl = counted ([] ++ behind) }))
ready-runs_example =
    ready-runs settings.queues_array end_of_io new resumed end_of_quantum queue after_round
      (ending ∷ []) [] (process 5 2) (next stay (procer 3 (λ n. false) first_round))
      (IsOrder-at end_of_io new resumed end_of_quantum busy queue busy-IsOrder refl)
      queue-IsConsistent (inr refl) refl refl
