-- ===== src/Examples/Replies.antt =====
-- The resumption of a process and the delivery of messages in a busy system.
use sisop_2012_2c.Lts.Delay.{rounds, delaying, admitted, rounds-admitted}
use sisop_2012_2c.Shared.{ℕ, ◌≡◌, refl, [], ◌∷◌, ◌++◌, some, length, map, arith}
use sisop_2012_2c.Shared.Outcome.{ok}
use sisop_2012_2c.Process.{Msg}
use sisop_2012_2c.System.{System}
use sisop_2012_2c.Wire.{Stream, serialization}
use sisop_2012_2c.Lts.{send, request, lts_event}
use sisop_2012_2c.Lts.Resumption.{resume_text, resumption, request-resumes}
use sisop_2012_2c.Lts.Delivery.{messages_of, others_of, writes, writes-deliver}
use sisop_2012_2c.Examples.Values.{lists, doubles, busy, process}

-- Two suspended processes, of the clients 17 and 18.
abbrev suspended : System ℕ
suspended = record busy { lps = process 7 1 ∷ process 8 1 ∷ [] }

request-resumes_example :
    (stream : Stream) × (serialization b'R' resume_text ≡ ok stream)
    × (lts_event suspended (request 18 (some (stream.bytes ++ [])))
        ≡ ok (resumption suspended (process 7 1 ∷ []) [] (process 8 1) suspended.mmp_sem, []))
request-resumes_example =
    request-resumes suspended (process 7 1 ∷ []) [] (process 8 1) [] refl ((λ e. omega arith), _)

abbrev message : ℕ → ℕ → Msg
message fd text = record { fd = fd; type = b'N'; msg = text ∷ [] }

abbrev pending : System ℕ
pending = record busy { sending_list = message 11 b'a' ∷ message 12 b'b' ∷ message 11 b'c' ∷ [] }

writes-deliver_example :
    writes 11 (length (messages_of 11 pending.sending_list)) pending
    ≡ ok (
      record pending { sending_list = others_of 11 pending.sending_list },
      map (λ m. send 11 m.type m.msg) (messages_of 11 pending.sending_list),
    )
writes-deliver_example = writes-deliver pending 11 (omega arith)

-- Of two delayed processes one is admitted.
rounds-admitted_example :
    rounds 1 (delaying (process 6 1 ∷ process 7 1 ∷ []) 3 busy)
    ≡ ok (delaying (process 7 1 ∷ []) 2 (admitted (process 6 1 ∷ []) busy))
rounds-admitted_example = rounds-admitted busy (process 6 1 ∷ []) (process 7 1 ∷ []) 2
