-- ===== src/Client/Main.antt =====
-- `main` of PROCER/PI/src/main.c from the start to the reply to the script, after which it goes on
-- with the loop of the session, and the signal handler of its second thread.
pub mod Protocol
pub mod Faults
use sisop_2012_2c.Shared.{
  ℕ, suc, Bool, true, false, List, [], ◌∷◌, ◌++◌, Option, none, some, CString, codes, length,
  get_elem?, ltb, ◌==◌, ◌≡◌, ◌≢◌, refl, ne→==, if◌then◌else◌,
}
use sisop_2012_2c.Shared.Int.{ℤ, to_u16}
use sisop_2012_2c.Shared.Number.{atoi, print_int, print_nat}
use sisop_2012_2c.Shared.Outcome.{Outcome, ok, deref, ◌>>=◌}
use sisop_2012_2c.Wire.{DataStream, Incoming, read_stream, c_string, serialization_pri}
use sisop_2012_2c.Server.{Received, make_handshake_client}
use sisop_2012_2c.Client.{
  Effect, info, error, shown, sent, closed, success, failure, Conclusion, conclude, preceded,
  byte_at, obtener_path_del_script, client_session,
}

-- What the system gives a run of the client. `mapped` has the bytes in memory behind the address that
-- mmap gives for the file of a path, as far as they may be read, and `none` where it gives MAP_FAILED;
-- the results of calls are true where they are not an error.
pub record Surroundings : Type 0 where
  pub argv : List CString
  pub env : List CString
  pub log_opened : Bool
  pub pp_ip : CString
  pub pp_puerto : ℤ
  pub prioridad_pri : ℤ
  pub mapped : CString → Option (List ℕ)
  pub connected : Bool
  pub hello_sent : Bool
  pub hello : Received
  pub script_sent : Bool
  pub incoming : Incoming
  pub resumed : ℕ → Bool

-- Every round of the session takes a byte of the socket at least.
abbrev pub session_fuel : Incoming → ℕ
session_fuel none = 1
session_fuel (some arrived) = suc (length arrived)

module _ (w : Surroundings) where
  -- The reply to the script is shown, whatever its type is, and 'F' ends the client.
  pub client_replied : DataStream × Incoming → Outcome Conclusion
  client_replied (message, rest) = do
    text ← c_string message.payload
    let effects = info text ∷ shown text ∷ []
    elim (message.type == b'F') [
      | true ↦ conclude success (effects ++ (closed ∷ []))
      | false ↦ (do
        later ← client_session (session_fuel rest) w.resumed 0 rest
        ok (preceded effects later))
    ]

  pub client_await : Outcome Conclusion
  unfolding client_replied
  client_await = do
    (read, rest) ← read_stream w.incoming
    elim read [
      | none ↦
          conclude failure
            (error (codes "Servidor no ha enviado respuesta luego del envio del script") ∷ [])
      | some message ↦ client_replied (message, rest)
    ]

  pub client_send : List ℕ → ℤ → Outcome Conclusion
  unfolding client_await
  client_send pages priority = do
    script ← c_string pages
    stream ← serialization_pri b'N' script priority
    elim w.script_sent [
      | false ↦ conclude failure (error (codes "Error enviando datos y script al servidor") ∷ [])
      | true ↦ (do
        later ← client_await
        ok (preceded (sent stream.bytes ∷ info (codes "Script enviado al servidor") ∷ []) later))
    ]

  pub client_connect : List ℕ → ℤ → Outcome Conclusion
  unfolding client_send
  client_connect pages priority = elim w.connected [
    | false ↦
        conclude failure
          (error (codes "Error creando descriptor de socket o conectado al servidor") ∷ [])
    | true ↦ (do
      accepted ← make_handshake_client w.hello_sent w.hello
      elim accepted [
        | false ↦ conclude failure (error (codes "Error en handshake") ∷ closed ∷ [])
        | true ↦ (do
          later ← client_send pages priority
          ok (preceded (info (codes "Handshake OK, conectado con el servidor") ∷ []) later))
      ])
  ]

  -- "Configuración Leída: PP_IP:%s PP_Puerto:%u Prioridad:%d"
  abbrev pub configuration_text : ℤ → CString
  configuration_text priority =
      codes "Configuraci"
      ++ 0xc3 ∷ 0xb3 ∷ codes "n Le"
      ++ 0xc3 ∷ 0xad ∷ codes "da: PP_IP:"
      ++ w.pp_ip
      ++ codes " PP_Puerto:"
      ++ print_nat (to_u16 w.pp_puerto)
      ++ codes " Prioridad:"
      ++ print_int priority

  -- The test for MAP_FAILED reads a byte through the pointer and compares it with -1.
  pub client_mapped : Option (List ℕ) → ℤ → Outcome Conclusion
  unfolding client_connect
  client_mapped maybe_pages priority = do
    pages ← deref maybe_pages
    elim (byte_at pages 0 == 255) [
      | true ↦ conclude failure (error (codes "Error al mapear el script a memoria") ∷ [])
      | false ↦ (do
        later ← client_connect pages priority
        ok (preceded (info (configuration_text priority) ∷ []) later))
    ]

  pub script_priority : Outcome ℤ
  script_priority =
      if length w.argv == 3
      then (do given ← deref (get_elem? w.argv 2); atoi given)
      else ok w.prioridad_pri

  pub client_main : Outcome Conclusion
  unfolding client_mapped script_priority
  client_main = elim w.log_opened [
    | false ↦ conclude failure []
    | true ↦ (do
      path ← obtener_path_del_script w.argv w.env
      priority ← script_priority
      later ←
          (if ltb 3 (length w.argv)
            then conclude failure
                (error (codes "Mal ingreso de parametros al ejecutar el script") ∷ [])
            else client_mapped (w.mapped path) priority)
      ok (preceded (info (codes "Proceso Interprete iniciado") ∷ []) later))
  ]

-- sigwait gives a signal: SIGINT or another.
pub data ClientSignal : Type 0 where
  sigint other : ClientSignal

abbrev pub wait_text : CString
wait_text = codes "    Debe esperar a que finalice la ejecuci" ++ 0xc3 ∷ 0xb3 ∷ codes "n del script"

-- The thread of the signals: SIGINT ends it once `main` is finished, which sends it one then; the
-- result is whether it returns.
pub client_signal_handler : ClientSignal → Bool → Bool × List Effect
client_signal_handler sigint true = (true, [])
client_signal_handler sigint false = (false, shown wait_text ∷ [])
client_signal_handler other finished = (false, shown wait_text ∷ [])

-- Without a third argument the priority is that of pi.config.
pub script_priority-default :
    (w : Surroundings) → length w.argv ≢ 3 → script_priority w ≡ ok w.prioridad_pri
unfolding script_priority
script_priority-default w h = rw (ne→== (length w.argv) 3 h) refl
