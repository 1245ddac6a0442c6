-- ===== src/Client.antt =====
-- The client PI: `main` of PROCER/PI/src/main.c with its signal handler, `obtenerPathDelScript` of
-- PROCER/PI/src/PI_defs.c and `writeStreamPri` of PROCER/PI/src/client_defs.c. What the system gives
-- (arguments, files, results of calls, bytes of the socket) is an argument; what the client writes
-- to its log, its terminal and the socket is a list of effects.
pub mod Main
pub mod Session
pub mod Termination
pub mod Path
use sisop_2012_2c.Shared.{
  ℕ, zero, suc, ◌+◌, ◌-◌, ◌%◌, Bool, true, false, ◌&&◌, List, [], ◌∷◌, ◌++◌, Option, none, some,
  CString, codes, length, drop, get_elem?, ltb, leb, ◌==◌, if◌then◌else◌,
}
use sisop_2012_2c.Shared.Int.{ℤ, to_u16}
use sisop_2012_2c.Shared.Number.{atoi, print_int, print_nat}
use sisop_2012_2c.Shared.Outcome.{Outcome, ok, fault, hang, exits, deref, ◌>>=◌}
use sisop_2012_2c.Wire.{
  DataStream, Incoming, read_stream, c_string, serialization, serialization_pri,
}
use sisop_2012_2c.Server.{Received, make_handshake_client}

-- logWriteINFO, logWriteERROR, puts, send and close, in the order of the calls
pub data Effect : Type 0 where
  info error shown : CString → Effect
  sent : List ℕ → Effect
  closed : Effect

pub data Exit : Type 0 where
  success failure : Exit

-- How the client ends, and what it has done.
pub record Conclusion : Type 0 where
  pub exit : Exit
  pub effects : List Effect

abbrev pub conclude : Exit → List Effect → Outcome Conclusion
conclude exit effects = ok (record { exit = exit; effects = effects })

abbrev pub preceded : List Effect → Conclusion → Conclusion
preceded effects c = record { exit = c.exit; effects = effects ++ c.effects }

-- A byte of a string: the NUL stands behind the last, and a byte behind that is not read here.
abbrev pub byte_at : CString → ℕ → ℕ
byte_at [] i = 0
byte_at (b ∷ text) zero = b
byte_at (b ∷ text) (suc i) = byte_at text i

abbrev pub starts_pwd : CString → Bool
starts_pwd entry =
    (byte_at entry 0 == b'P') && (byte_at entry 1 == b'W') && (byte_at entry 2 == b'D')

-- The loop over `env`, which ends in NULL.
pub find_pwd : List CString → Option CString
find_pwd [] = none
find_pwd (entry ∷ env) = let rest = find_pwd env in if starts_pwd entry then some entry else rest

-- The entry from its fifth byte on, "/" and the name, in a buffer of the length of both.
pub obtener_path_del_script : List CString → List CString → Outcome CString
unfolding find_pwd
obtener_path_del_script argv env = do
  entry ← deref (find_pwd env)
  name ← deref (get_elem? argv 1)
  let path = drop 4 entry ++ (b'/' ∷ name)
  (if ltb (length entry) 4
      then fault
      else if leb (length path + 1) (length entry + length name)
      then ok path
      else fault)

-- What the client does on a message of the session; `none` goes on.
pub record Reply : Type 0 where
  pub ends : Option Exit
  pub effects : List Effect

-- "Proceso Suspendido, presione *enter para reanudarlo.Deberá esperar a que disminuya MMP en caso
-- de estar al máximo"
abbrev pub press_enter_text : CString
press_enter_text =
    codes "Proceso Suspendido, presione *enter para reanudarlo.Deber"
    ++ 0xc3 ∷ 0xa1 ∷ codes " esperar a que disminuya MMP en caso de estar al m"
    ++ 0xc3 ∷ 0xa1 ∷ codes "ximo"

-- "Finalizó ejecución" and "Ha finalizado la ejecución"
abbrev pub ended_texts : CString × CString
ended_texts = (
  codes "Finaliz" ++ 0xc3 ∷ 0xb3 ∷ codes " ejecuci" ++ 0xc3 ∷ 0xb3 ∷ codes "n",
  codes "Ha finalizado la ejecuci" ++ 0xc3 ∷ 0xb3 ∷ codes "n",
)

-- The user presses enter: scanf takes one byte of the terminal, and what it gives is not looked at.
abbrev pub resume_reply : Bool → CString → List ℕ → Reply
resume_reply resumed text request =
    let suspended =
      info (codes "Proceso Suspendido") ∷ info text ∷ shown text ∷ shown press_enter_text ∷ [] in
    if resumed
    then record {
      ends = none;
      effects =
          suspended
          ++ (sent request ∷ info (codes "Proceso reanudado") ∷ shown (codes "Reanudado") ∷ []);
    }
    else record {
      ends = some failure;
      effects = suspended ++ (error (codes "No se ha podido reanudar el proceso") ∷ []);
    }

-- The socket is closed behind the loop.
abbrev pub end_reply : CString → Reply
end_reply text = record {
  ends = some success;
  effects = info text ∷ shown text ∷ shown ended_texts.0 ∷ info ended_texts.1 ∷ closed ∷ [];
}

-- One round of while (true) with a message; one of another type is left alone.
pub client_reply : Bool → DataStream → Outcome Reply
client_reply resumed message =
    if message.type == b'N'
    then (do
      text ← c_string message.payload
      ok (record { ends = none; effects = info text ∷ shown text ∷ [] }))
    else if message.type == b'S'
    then (do
      text ← c_string message.payload
      stream ← serialization b'R' (codes "Reanudar")
      ok (resume_reply resumed text stream.bytes))
    else if message.type == b'T'
    then (do text ← c_string message.payload; ok (end_reply text))
    else ok (record { ends = none; effects = [] })

-- The socket is closed where the read fails, and again behind the loop.
abbrev pub lost_effects : List Effect
lost_effects =
    error (codes "Error recibiendo datos, o el servidor nos ha desconectado") ∷ closed ∷ closed ∷ []

-- while (true), on fuel; `resumed n` is what send gives in the n-th round.
pub client_session : ℕ → (ℕ → Bool) → ℕ → Incoming → Outcome Conclusion
client_session zero resumed n socket = hang
client_session (suc fuel) resumed n socket = do
  (read, rest) ← read_stream socket
  elim read [
    | none ↦ conclude success lost_effects
    | some message ↦ (do
      reply ← client_reply (resumed n) message
      elim reply.ends [
        | some exit ↦ conclude exit reply.effects
        | none ↦ (do
          later ← client_session fuel resumed (suc n) rest
          ok (preceded reply.effects later))
      ])
  ]
