-- ===== src/Server.antt =====
-- The handshake of a connection on both sides: `makeHandshake` of PROCER/PP/src/server_defs.c and of
-- PROCER/PI/src/client_defs.c. A call of recv or send is its result.
use sisop_2012_2c.Shared.{ℕ, Bool, true, false, ◌==◌, ◌≡◌, refl, if◌then◌else◌}
use sisop_2012_2c.Shared.Outcome.{Outcome, ok, fault}

-- recv of one byte: -1, 0 at the end of the stream, where the byte is not written, or the byte
pub data Received : Type 0 where
  failed closed : Received
  byte : ℕ → Received

-- `none` of the two is ERROR: false. The code tests for -1 only, so at the end of the stream it reads
-- a `char` that nothing has written.
unfoldable pub make_handshake : Received → Bool → Outcome Bool
make_handshake failed sent = ok false
make_handshake closed sent = fault
make_handshake (byte code) sent = if code == b'#' then ok sent else ok false

-- PI sends '#' first; its `code` is written before the recv, so a closed stream leaves '#' there.
pub make_handshake_client : Bool → Received → Outcome Bool
make_handshake_client false received = ok false
make_handshake_client true failed = ok false
make_handshake_client true closed = ok (b'#' == b'!')
make_handshake_client true (byte code) = if code == b'!' then ok true else ok false

-- The code that PP answers is the one that PI waits for.
pub make_handshake_client-accepts : make_handshake_client true (byte b'!') ≡ ok true
unfolding make_handshake_client
make_handshake_client-accepts = refl
