-- ===== src/Lts/Admission.antt =====
-- The first message of a client, from its bytes to the queue where its process goes.
use sisop_2012_2c.Shared.{
  ℕ, zero, suc, ◌+◌, ◌<◌, ◌≡◌, refl, true, List, [], ◌∷◌, ◌++◌, CString, codes, some, length,
}
use sisop_2012_2c.Shared.Int.{ℤ}
use sisop_2012_2c.Shared.Outcome.{ok, ◌>>=◌}
use sisop_2012_2c.Commons.{Collections}
use sisop_2012_2c.Doubles.{Doubles}
use sisop_2012_2c.Process.{enqueue}
use sisop_2012_2c.System.{System}
use sisop_2012_2c.Wire.{Stream, serialization_pri, c_string, u16_mod}
use sisop_2012_2c.Wire.RoundTrip.{IsText, IsInt32, read_stream_pri-serialization_pri}
use sisop_2012_2c.Server.{byte, make_handshake}
use sisop_2012_2c.Lts.{
  Action, watch, send, close, connection, delayed_text, new_image, admit, receive_script, connect,
  lts_event,
}

module _ {D : Type 0} ⦃c : Collections⦄ ⦃d : Doubles D⦄ (s : System D) (fd : ℕ) (script : CString)
    (priority : ℤ) where
  -- What should become of the script, by what is left of MPS and of MMP.
  abbrev pub decision : ℕ → ℕ → System D × List Action
  decision zero mmp = (s, watch fd ∷ send fd b'F' (codes "MPS superado") ∷ close fd ∷ [])
  decision (suc mps) zero = (
    record s {
      mps_sem = mps;
      next_pid = s.next_pid + 1;
      lfifo = enqueue s.lfifo (new_image s fd priority script);
    },
    watch fd ∷ send fd b'N' delayed_text ∷ [],
  )
  decision (suc mps) (suc mmp) = (
    record s {
      mps_sem = mps;
      mmp_sem = mmp;
      next_pid = s.next_pid + 1;
      lpn = enqueue s.lpn (new_image s fd priority script);
      sts_in_empty = suc s.sts_in_empty;
    },
    watch fd ∷ send fd 0 (codes "Script AnSISOP cargado") ∷ [],
  )

  receive_script-decision :
      (mps mmp : ℕ) (buffer : List ℕ)
      → s.mps_sem ≡ mps
      → s.mmp_sem ≡ mmp
      → c_string buffer ≡ ok script
      → (do
        (s', actions) ← receive_script s fd (record { type = b'N'; payload = buffer }, priority)
        ok (s', watch fd ∷ actions))
        ≡ ok (decision mps mmp)
  unfolding receive_script admit new_image
  receive_script-decision zero mmp buffer full e text = simp full
  receive_script-decision (suc mps) zero buffer more full text = rw (more, full, text)
  receive_script-decision (suc mps) (suc mmp) buffer more free text = rw (more, free, text)

  -- A client that has made its handshake and sends its script as PI does, with at most 65527 bytes and
  -- any priority, is refused where MPS is used up, waits in LFIFO where only MMP is, and otherwise is
  -- in LPN, and STS is told; the counters go down by the places that it takes, and it hears of it.
  pub connection-admits :
      (rest : List ℕ)
      → length script + 8 < u16_mod
      → IsText script
      → IsInt32 priority
      → (st : Stream) × (serialization_pri b'N' script priority ≡ ok st)
        × (lts_event s (connection fd (byte b'#') true (some (st.bytes ++ rest)))
            ≡ ok (decision s.mps_sem s.mmp_sem))
  unfolding lts_event connect make_handshake
  connection-admits rest h text int =
      let (st, sent, l, buffer, got, payload) =
        read_stream_pri-serialization_pri b'N' script priority rest h text int in
      (st, sent, rw got (receive_script-decision s.mps_sem s.mmp_sem buffer refl refl payload))
