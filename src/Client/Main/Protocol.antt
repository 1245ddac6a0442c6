-- ===== src/Client/Main/Protocol.antt =====
-- The client and PP together: the first message of the client as PP takes it, PP's reply as the
-- client takes it, and the session behind it.
use sisop_2012_2c.Shared.{
  ℕ, zero, suc, ◌+◌, ◌≤◌, ◌<◌, ◌≡◌, refl, ◌∙◌, ◌≢◌, true, List, [], ◌∷◌, ◌++◌, CString, codes, some,
  arith, length, ge→ltb, ne→==, ◌==◌,
}
use sisop_2012_2c.Shared.Int.{ℤ}
use sisop_2012_2c.Shared.Outcome.{ok, deref, ◌>>=◌}
use sisop_2012_2c.Commons.{Collections}
use sisop_2012_2c.Doubles.{Doubles}
use sisop_2012_2c.System.{System}
use sisop_2012_2c.Wire.{
  Stream, DataStream, Incoming, read_stream, u16_mod, serialization, serialization_pri, c_string,
}
use sisop_2012_2c.Wire.RoundTrip.{IsText, IsInt32, c_string-append, read_stream-serialization}
use sisop_2012_2c.Server.{byte, make_handshake_client-accepts}
use sisop_2012_2c.Lts.{connection, delayed_text, lts_event}
use sisop_2012_2c.Lts.Admission.{decision, connection-admits}
use sisop_2012_2c.Client.{
  info, shown, sent, closed, success, Conclusion, preceded, byte_at, obtener_path_del_script,
  client_session,
}
use sisop_2012_2c.Client.Main.{
  Surroundings, configuration_text, script_priority, client_connect, client_mapped, client_send,
  client_await, client_replied, client_main,
}
use sisop_2012_2c.Client.Session.{Notice, AllNotices, write_notices, attend, client_session-attend}

-- What PP answers to a script, by what is left of MPS and of MMP: `decision` sends this.
abbrev pub reply_type : ℕ → ℕ → ℕ
reply_type zero mmp = b'F'
reply_type (suc mps) zero = b'N'
reply_type (suc mps) (suc mmp) = 0

abbrev pub reply_text : ℕ → ℕ → CString
reply_text zero mmp = codes "MPS superado"
reply_text (suc mps) zero = delayed_text
reply_text (suc mps) (suc mmp) = codes "Script AnSISOP cargado"

-- Behind the reply: a refused client ends, any other attends to the notices.
abbrev pub behind_reply : Surroundings → ℕ → List Notice → Conclusion
behind_reply w zero notices = record { exit = success; effects = closed ∷ [] }
behind_reply w (suc mps) notices = attend w.resumed 0 notices

-- All that the client does, with the bytes of its first message.
abbrev pub conversation : Surroundings → ℤ → ℕ → ℕ → Stream → List Notice → Conclusion
conversation w priority mps mmp stream notices =
    preceded
      (info (codes "Proceso Interprete iniciado")
        ∷ info (configuration_text w priority)
        ∷ info (codes "Handshake OK, conectado con el servidor")
        ∷ sent stream.bytes
        ∷ info (codes "Script enviado al servidor")
        ∷ info (reply_text mps mmp)
        ∷ shown (reply_text mps mmp)
        ∷ [])
      (behind_reply w mps notices)

reply-IsText : (mps mmp : ℕ) → IsText (reply_text mps mmp)
reply-IsText zero mmp = omega arith
reply-IsText (suc mps) zero = omega arith
reply-IsText (suc mps) (suc mmp) = omega arith

reply-fits : (mps mmp : ℕ) → length (reply_text mps mmp) + 4 < u16_mod
reply-fits zero mmp = omega arith
reply-fits (suc mps) zero = omega arith
reply-fits (suc mps) (suc mmp) = omega arith

module _ (w : Surroundings) where
  -- The rest of the run from each of its stages.
  client_replied-conversation :
      (mps mmp : ℕ) (buffer : List ℕ) (notices : List Notice) (later : List ℕ)
      → c_string buffer ≡ ok (reply_text mps mmp)
      → ((fuel : ℕ)
          → length notices < fuel
          → client_session fuel w.resumed 0 (some later) ≡ ok (attend w.resumed 0 notices))
      → length notices ≤ length later
      → client_replied w (record { type = reply_type mps mmp; payload = buffer }, some later)
        ≡ ok (
            preceded
              (info (reply_text mps mmp) ∷ shown (reply_text mps mmp) ∷ [])
              (behind_reply w mps notices))
  unfolding client_replied
  client_replied-conversation zero mmp buffer notices later text session enough = rw text refl
  client_replied-conversation (suc mps) zero buffer notices later text session enough =
      rw text (rw (session (suc (length later)) (omega arith)) refl)
  client_replied-conversation (suc mps) (suc mmp) buffer notices later text session enough =
      rw text (rw (session (suc (length later)) (omega arith)) refl)

  -- PP is there, the handshake succeeds, and the script can be mapped and sent.
  client_main-await :
      (path script : CString) (padding : List ℕ) (priority : ℤ) (st : Stream) (c : Conclusion)
      → w.log_opened ≡ true
      → obtener_path_del_script w.argv w.env ≡ ok path
      → script_priority w ≡ ok priority
      → length w.argv ≤ 3
      → w.mapped path ≡ some (script ++ 0 ∷ padding)
      → byte_at (script ++ 0 ∷ padding) 0 ≢ 255
      → IsText script
      → w.connected ≡ true
      → w.hello_sent ≡ true
      → w.hello ≡ byte b'!'
      → w.script_sent ≡ true
      → serialization_pri b'N' script priority ≡ ok st
      → client_await w ≡ ok c
      → client_main w
        ≡ ok (
            preceded
              (info (codes "Proceso Interprete iniciado")
                ∷ info (configuration_text w priority)
                ∷ info (codes "Handshake OK, conectado con el servidor")
                ∷ sent st.bytes
                ∷ info (codes "Script enviado al servidor")
                ∷ [])
              c)
  unfolding client_main client_mapped client_connect client_send
  client_main-await path script padding priority st c opened at_path prio few pages start text conn
        hs hello ss sr rest =
      simp (
        client_main,
        client_mapped,
        client_connect,
        client_send,
        deref,
        ◌>>=◌,
        ◌==◌,
        opened,
        at_path,
        prio,
        ge→ltb 3 (length w.argv) few,
        pages,
        ne→== (byte_at (script ++ 0 ∷ padding) 0) 255 start,
        conn,
        hs,
        hello,
        make_handshake_client-accepts,
        c_string-append script padding text,
        sr,
        ss,
        rest,
      )

  client_await-replied :
      (arrived : List ℕ) (message : DataStream) (rest : Incoming)
      → w.incoming ≡ some arrived
      → read_stream (some arrived) ≡ ok (some message, rest)
      → client_await w ≡ client_replied w (message, rest)
  unfolding client_await
  client_await-replied arrived message rest came read = simp (client_await, ◌>>=◌, came, read)

module _ {D : Type 0} ⦃c : Collections⦄ ⦃d : Doubles D⦄ (s : System D) (fd : ℕ) (w : Surroundings)
    (path script : CString) (padding : List ℕ) (priority : ℤ) (notices : List Notice) where
  -- Where the log opens, the arguments are at most two and the priority is read, the script, of at
  -- most 65527 bytes, is mapped with a NUL behind it and does not begin with byte 255, PI connects, PP
  -- accepts and the script is sent: PP takes what was sent as the script with its priority and
  -- decides on it by MPS and MMP; the reply and the notices that follow can be written, and the
  -- client that receives them shows the reply and ends where it was refused, and attends to the
  -- notices where it was not.
  pub client_main-conversation :
      w.log_opened ≡ true
      → obtener_path_del_script w.argv w.env ≡ ok path
      → script_priority w ≡ ok priority
      → length w.argv ≤ 3
      → w.mapped path ≡ some (script ++ 0 ∷ padding)
      → byte_at (script ++ 0 ∷ padding) 0 ≢ 255
      → IsText script
      → length script + 8 < u16_mod
      → IsInt32 priority
      → w.connected ≡ true
      → w.hello_sent ≡ true
      → w.hello ≡ byte b'!'
      → w.script_sent ≡ true
      → AllNotices notices
      → (st reply : Stream) × (later : List ℕ) × (serialization_pri b'N' script priority ≡ ok st)
        × (lts_event s (connection fd (byte b'#') true (some (st.bytes ++ [])))
            ≡ ok (decision s fd script priority s.mps_sem s.mmp_sem))
        × (serialization (reply_type s.mps_sem s.mmp_sem) (reply_text s.mps_sem s.mmp_sem)
            ≡ ok reply)
        × (write_notices notices ≡ ok later)
        × (client_main (record w { incoming = some (reply.bytes ++ later) })
            ≡ ok (conversation w priority s.mps_sem s.mmp_sem st notices))
  unfolding script_priority
  client_main-conversation opened at_path prio few pages start text fits int conn hs hello ss good =
      let (st, written, admitted) = connection-admits s fd script priority [] fits text int in
      let (later, all_written, enough, session) = client_session-attend w.resumed 0 notices good in
      let (reply, replied, l, buffer, read, same) =
        read_stream-serialization (reply_type s.mps_sem s.mmp_sem) (reply_text s.mps_sem s.mmp_sem)
          later (reply-fits s.mps_sem s.mmp_sem) (reply-IsText s.mps_sem s.mmp_sem) in
      let w' = record w { incoming = some (reply.bytes ++ later) } in
      (
        st,
        reply,
        later,
        written,
        admitted,
        replied,
        all_written,
        client_main-await w' path script padding priority st _ opened at_path prio few pages start
            text conn hs hello ss written
            (client_await-replied w' (reply.bytes ++ later) _ (some later) refl read
              ∙ client_replied-conversation w' s.mps_sem s.mmp_sem buffer notices later same session
                  enough),
      )
