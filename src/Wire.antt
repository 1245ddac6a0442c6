-- ===== src/Wire.antt =====
-- The messages between PI and PP: PROCER/PP/src/defSerialization.c, the sender of PROCER/PI/src/
-- defSerialization.c, and the reads of PROCER/PP/src/server_defs.c. A message is a type, a uint16_t
-- with the length of the whole, an int32_t in the first message only, and a C string with its NUL;
-- integers are little-endian, as the machine that the code copies them on. `serialization`,
-- `deserialization`, `readStream` and `writeStream` of PI are the same text as those of PP.
pub mod RoundTrip
pub mod Reading
pub mod Progress
use sisop_2012_2c.Shared.{
  ℕ, zero, suc, ◌+◌, ◌-◌, ◌*◌, ◌/◌, ◌%◌, ◌^◌, Bool, List, [], ◌∷◌, ◌++◌, Option, none, some,
  CString, length, get_elem?, take, drop, ltb, leb, ◌==◌, if◌then◌else◌,
}
use sisop_2012_2c.Shared.Int.{ℤ, pos, negsuc}
use sisop_2012_2c.Shared.Outcome.{Outcome, ok, fault, deref, ◌>>=◌}

abbrev pub u16_mod : ℕ
u16_mod = 65536

-- t_data_stream: `payload` is the buffer behind `data`
pub record DataStream : Type 0 where
  pub type : ℕ
  pub payload : List ℕ

-- t_stream
pub record Stream : Type 0 where
  pub length : ℕ
  pub bytes : List ℕ

-- memcpy of a uint16_t and of an int32_t
abbrev pub bytes16 : ℕ → List ℕ
bytes16 n = n % 256 ∷ n / 256 % 256 ∷ []

-- The bit pattern of an int32_t, and the integer of a pattern.
unfoldable pub word32 : ℤ → ℕ
word32 (pos n) = n % 2 ^ 32
word32 (negsuc n) = (2 ^ 32 - 1 - n % 2 ^ 32) % 2 ^ 32

unfoldable pub int32 : ℕ → ℤ
int32 w = if ltb w (2 ^ 31) then pos w else negsuc (2 ^ 32 - 1 - w)

abbrev pub bytes32 : ℕ → List ℕ
bytes32 n = n % 256 ∷ n / 256 % 256 ∷ n / 65536 % 256 ∷ n / 16777216 % 256 ∷ []

-- uint16_t length = sizeof(char) + sizeof(uint16_t) + strlen(data) + 1; the copies beyond the
-- allocation, where the length has wrapped, are a fault
unfoldable pub serialization : ℕ → CString → Outcome Stream
serialization type text =
    let size = (1 + 2 + length text + 1) % u16_mod in
    if leb (3 + (length text + 1)) size
    then ok (record {
      length = (3 + (length text + 1)) % u16_mod;
      bytes = type ∷ bytes16 size ++ text ++ 0 ∷ [];
    })
    else fault

-- PI's serializationPri
pub serialization_pri : ℕ → CString → ℤ → Outcome Stream
unfolding word32
serialization_pri type text priority =
    let size = (1 + 2 + 4 + length text + 1) % u16_mod in
    if leb (7 + (length text + 1)) size
    then ok (record {
      length = (7 + (length text + 1)) % u16_mod;
      bytes = type ∷ bytes16 size ++ bytes32 (word32 priority) ++ text ++ 0 ∷ [];
    })
    else fault

-- memcpy(dst, stream + offset, length)
abbrev pub copy_out : List ℕ → ℕ → ℕ → Outcome (List ℕ)
copy_out stream offset n =
    if leb (offset + n) (length stream) then ok (take n (drop offset stream)) else fault

abbrev pub read16 : List ℕ → ℕ → Outcome ℕ
read16 stream offset = do
  lo ← deref (get_elem? stream offset)
  hi ← deref (get_elem? stream (offset + 1))
  ok (lo + 256 * hi)

-- `length - sizeof(char) - sizeof(uint16_t)` stored in a uint16_t
pub deserialization : List ℕ → Outcome DataStream
deserialization stream = do
  type ← deref (get_elem? stream 0)
  size ← read16 stream 1
  payload ← copy_out stream 3 ((size + u16_mod - 3) % u16_mod)
  ok (record { type = type; payload = payload })

pub deserialization_pri : List ℕ → Outcome (DataStream × ℤ)
unfolding int32
deserialization_pri stream = do
  type ← deref (get_elem? stream 0)
  size ← read16 stream 1
  lo ← read16 stream 3
  hi ← read16 stream 5
  payload ← copy_out stream 7 ((size + u16_mod - 7) % u16_mod)
  ok (record { type = type; payload = payload }, int32 (lo + 65536 * hi))

-- The string that a `char*` at the buffer stands for: without a NUL in it, reading it is a fault.
unfoldable pub c_string : List ℕ → Outcome CString
c_string [] = fault
c_string (zero ∷ buffer) = ok []
c_string (suc b ∷ buffer) = do text ← c_string buffer; ok (suc b ∷ text)

-- What the socket holds: nothing, because the peer is gone or recv fails, or bytes in order.
abbrev pub Incoming : Type 0
Incoming = Option (List ℕ)

-- recv(sockfd, stream_in, header.length, 0) after a peek of the header: both receive what has
-- arrived, and where that is less than they ask for, the rest of the buffer is never written and is
-- read all the same. The result is `none` where recv gives 0 or less; the bytes that stay come back
-- beside it.
pub receive : List ℕ → Outcome (Option (List ℕ) × List ℕ)
receive [] = ok (none, [])
receive (b ∷ arrived) = do
  size ← read16 (b ∷ arrived) 1
  stream_in ← copy_out (b ∷ arrived) 0 size
  if size == 0 then ok (none, b ∷ arrived) else ok (some stream_in, drop size (b ∷ arrived))

module _ {A : Type 0} (deserialize : List ℕ → Outcome A) where
  pub parse_stream : Option (List ℕ) × List ℕ → Outcome (Option A × Incoming)
  parse_stream (none, rest) = ok (none, some rest)
  parse_stream (some stream_in, rest) = do
    message ← deserialize stream_in
    ok (some message, some rest)

  -- The two reads differ in the deserialization alone; `none` is ERROR.
  pub read_with : Incoming → Outcome (Option A × Incoming)
  unfolding parse_stream
  read_with none = ok (none, none)
  read_with (some arrived) = do received ← receive arrived; parse_stream received

pub read_stream : Incoming → Outcome (Option DataStream × Incoming)
read_stream = read_with deserialization

pub read_stream_pri : Incoming → Outcome (Option (DataStream × ℤ) × Incoming)
read_stream_pri = read_with deserialization_pri
