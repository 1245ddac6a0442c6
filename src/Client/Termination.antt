-- ===== src/Client/Termination.antt =====
-- Whatever PP sends, or a part of it, the session of the client comes to an end: each round takes a
-- byte of the socket at least.
use sisop_2012_2c.Shared.{
  ℕ, zero, suc, ◌<◌, Bool, List, Option, none, some, arith, length, codes, ◌==◌,
}
use sisop_2012_2c.Shared.Outcome.{Outcome, ok, ◌>>=◌, Comes, Any, Comes->>=, Comes-if}
use sisop_2012_2c.Wire.{Incoming, DataStream, read_stream, c_string, serialization}
use sisop_2012_2c.Wire.Progress.{c_string-Comes, serialization-Comes, Takes, read_stream-Takes}
use sisop_2012_2c.Client.{
  Effect, Exit, success, Conclusion, conclude, preceded, resume_reply, end_reply, lost_effects,
  client_reply, client_session,
}

client_reply-Comes :
    (resumed : Bool) (message : DataStream) → Comes Any (client_reply resumed message)
unfolding client_reply
client_reply-Comes resumed message =
    let text = c_string message.payload in
    let said = c_string-Comes message.payload in
    Comes-if Any (message.type == b'N') _ _ (λ e. Comes->>= Any Any text _ said (λ t u. _))
      (λ e.
        Comes-if Any (message.type == b'S') _ _
          (λ e. Comes->>= Any Any text _ said (λ t u.
            Comes->>= Any Any (serialization b'R' (codes "Reanudar"))
              (λ stream. ok (resume_reply resumed t stream.bytes))
              (serialization-Comes b'R' (codes "Reanudar")) (λ stream v. _)))
          (λ e.
            Comes-if Any (message.type == b'T') _ _
              (λ e. Comes->>= Any Any text (λ t. ok (end_reply t)) said (λ t u. _)) (λ e. _)))

-- The loop behind a reply, where it comes to an end.
session_behind-Comes :
    (ends : Option Exit) (effects : List Effect) (later : Outcome Conclusion)
    → Comes Any later
    → Comes Any (elim ends as (λ x. Outcome Conclusion) [
      | some exit ↦ conclude exit effects
      | none ↦ (do rest ← later; ok (preceded effects rest))
    ])
session_behind-Comes none effects later h =
    Comes->>= Any Any later (λ rest. ok (preceded effects rest)) h (λ rest u. _)
session_behind-Comes (some exit) effects later h = _

-- With fuel for a round for each byte that has arrived and one more, the session concludes or
-- faults, whatever the bytes are; it does not go on for ever.
pub client_session-Comes :
    (fuel : ℕ) (resumed : ℕ → Bool) (n : ℕ) (arrived : List ℕ)
    → length arrived < fuel
    → Comes Any (client_session fuel resumed n (some arrived))
unfolding client_session
client_session-Comes zero resumed n arrived h = omega (arith, h)
client_session-Comes (suc fuel) resumed n arrived h =
    Comes->>= (Takes (length arrived)) Any (read_stream (some arrived)) _
      (read_stream-Takes arrived) (round (client_session-Comes fuel resumed (suc n)))
  where
    round :
        ((rest : List ℕ)
          → length rest < fuel
          → Comes Any (client_session fuel resumed (suc n) (some rest)))
        → (read : Option DataStream × Incoming) → Takes (length arrived) read
        → Comes Any (elim read.0 as (λ x. Outcome Conclusion) [
          | none ↦ conclude success lost_effects
          | some message ↦ (do
            reply ← client_reply (resumed n) message
            elim reply.ends as (λ x. Outcome Conclusion) [
              | some exit ↦ conclude exit reply.effects
              | none ↦ (do
                later ← client_session fuel resumed (suc n) read.1
                ok (preceded reply.effects later))
            ])
        ])
    round ih (none, rest) k = _
    round ih (some message, none) k = elim k [ ]
    round ih (some message, some rest) k =
        Comes->>= Any Any (client_reply (resumed n) message) _
          (client_reply-Comes (resumed n) message)
          (λ reply u.
            session_behind-Comes reply.ends reply.effects
              (client_session fuel resumed (suc n) (some rest)) (ih rest (omega (arith, h, k))))
