-- ===== src/Examples/Clients.antt =====
-- The theorems on the client at a concrete run: the script "x=1" in the directory /home.
use sisop_2012_2c.Shared.{
  ℕ, ◌≡◌, ◌≤◌, ◌<◌, refl, true, List, [], ◌∷◌, ◌++◌, CString, codes, some, arith, length,
}
use sisop_2012_2c.Shared.Int.{pos}
use sisop_2012_2c.Shared.Outcome.{ok}
use sisop_2012_2c.Wire.{Stream, serialization, serialization_pri}
use sisop_2012_2c.Shared.Outcome.{Comes, Any}
use sisop_2012_2c.Server.{byte}
use sisop_2012_2c.Lts.{connection, lts_event}
use sisop_2012_2c.Lts.Admission.{decision}
use sisop_2012_2c.Client.{obtener_path_del_script, client_session}
use sisop_2012_2c.Client.Path.{obtener_path_del_script-first}
use sisop_2012_2c.Client.Session.{
  Notice, says, suspends, ends, unknown, AllNotices, write_notices, attend, client_session-attend,
}
use sisop_2012_2c.Client.Termination.{client_session-Comes}
use sisop_2012_2c.Client.Main.{Surroundings, script_priority, script_priority-default, client_main}
use sisop_2012_2c.Client.Main.Protocol.{
  reply_type, reply_text, conversation, client_main-conversation,
}
use sisop_2012_2c.Examples.Values.{lists, doubles, short_script, short_script-IsText, empty_system}

abbrev path : CString
path = codes "/home/x"

-- A run with the bytes of the pages that the script is mapped to.
abbrev run : List ℕ → Surroundings
run pages = record {
  argv = codes "pi" ∷ codes "x" ∷ [];
  env = codes "HOME=/" ∷ codes "PWD=/home" ∷ [];
  log_opened = true;
  pp_ip = codes "127.0.0.1";
  pp_puerto = pos 5000;
  prioridad_pri = pos 2;
  mapped = λ p. some pages;
  connected = true;
  hello_sent = true;
  hello = byte b'!';
  script_sent = true;
  incoming = some [];
  resumed = λ n. true;
}

abbrev notices : List Notice
notices = says (codes "a") ∷ suspends (codes "b") ∷ unknown 7 (codes "c") ∷ ends (codes "d") ∷ []

notices-AllNotices : AllNotices notices
notices-AllNotices = omega arith

obtener_path_del_script-first_example :
    obtener_path_del_script
      (codes "pi" ∷ codes "x" ∷ [])
      (codes "HOME=/" ∷ [] ++ (codes "PWD=" ++ codes "/home") ∷ [])
    ≡ ok (codes "/home" ++ (b'/' ∷ codes "x"))
obtener_path_del_script-first_example =
    obtener_path_del_script-first (codes "HOME=/" ∷ []) (codes "/home") [] (codes "pi") (codes "x")
      [] (refl, _)

priority_of_run : (pages : List ℕ) → script_priority (run pages) ≡ ok (pos 2)
priority_of_run pages = script_priority-default (run pages) (λ e. omega arith)

client_session-attend_example :
    (bytes : List ℕ) × (write_notices notices ≡ ok bytes)
    × (length notices ≤ length bytes)
    × ((fuel : ℕ)
        → length notices < fuel
        → client_session fuel (λ n. true) 0 (some bytes) ≡ ok (attend (λ n. true) 0 notices))
client_session-attend_example = client_session-attend (λ n. true) 0 notices notices-AllNotices

client_session-Comes_example : Comes Any (client_session 4 (λ n. true) 0 (some (b'N' ∷ 5 ∷ 0 ∷ [])))
client_session-Comes_example =
    client_session-Comes 4 (λ n. true) 0 (b'N' ∷ 5 ∷ 0 ∷ []) (omega arith)

client_main-conversation_example :
    (st reply : Stream) × (later : List ℕ) × (serialization_pri b'N' short_script (pos 2) ≡ ok st)
    × (lts_event empty_system (connection 7 (byte b'#') true (some (st.bytes ++ [])))
        ≡ ok (
            decision empty_system 7 short_script (pos 2) empty_system.mps_sem empty_system.mmp_sem))
    × (serialization
          (reply_type empty_system.mps_sem empty_system.mmp_sem)
          (reply_text empty_system.mps_sem empty_system.mmp_sem)
        ≡ ok reply)
    × (write_notices notices ≡ ok later)
    × (client_main
          (record (run (short_script ++ 0 ∷ [])) { incoming = some (reply.bytes ++ later) })
        ≡ ok (
            conversation
              (run (short_script ++ 0 ∷ []))
              (pos 2)
              empty_system.mps_sem
              empty_system.mmp_sem
              st
              notices))
client_main-conversation_example =
    client_main-conversation empty_system 7 (run (short_script ++ 0 ∷ [])) path short_script []
      (pos 2) notices refl obtener_path_del_script-first_example
      (priority_of_run (short_script ++ 0 ∷ [])) (omega arith) refl (λ e. omega arith)
      short_script-IsText (omega arith) (omega arith) refl refl refl refl notices-AllNotices
