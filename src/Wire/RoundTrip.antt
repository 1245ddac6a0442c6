-- ===== src/Wire/RoundTrip.antt =====
-- What one side sends the other receives: the type, the text and, in the first message, the
-- priority; and the length at which the sender writes past its buffer.
use native.Mathlib.Nat.{mod-eq_of_lt}
use sisop_2012_2c.Shared.{
  ℕ, zero, suc, ◌+◌, ◌-◌, ◌*◌, ◌/◌, ◌%◌, ◌^◌, ◌≤◌, ◌<◌, ◌≡◌, refl, ap, ◌≢◌, List, [], ◌∷◌, ◌++◌,
  some, CString, arith, length, length-append, le→leb, lt→leb,
}
use sisop_2012_2c.Shared.Int.{ℤ, pos, negsuc}
use sisop_2012_2c.Shared.Outcome.{ok, fault}
use sisop_2012_2c.Wire.{
  u16_mod, Stream, word32, int32, bytes32, serialization, serialization_pri, deserialization,
  deserialization_pri, c_string, read_stream, read_stream_pri,
}
use sisop_2012_2c.Wire.Reading.{frame, copy_out-append_end, read_with-append}

-- No byte of the text is NUL.
abbrev pub IsText : CString → Type 0
IsText [] = Unit
IsText (b ∷ text) = (b ≢ 0) × IsText text

abbrev pub IsInt32 : ℤ → Type 0
IsInt32 (pos n) = n < 2 ^ 31
IsInt32 (negsuc n) = n < 2 ^ 31

pub c_string-append : (text rest : List ℕ) → IsText text → c_string (text ++ 0 ∷ rest) ≡ ok text
unfolding c_string
c_string-append [] rest h = refl
c_string-append (zero ∷ text) rest h = absurd (h.0 refl)
c_string-append (suc b ∷ text) rest h = rw (c_string-append text rest h.1, c_string)

pub int32-word32 : (z : ℤ) → IsInt32 z → int32 (word32 z) ≡ z
unfolding int32 word32
int32-word32 (pos n) h = ground arith
int32-word32 (negsuc n) h = ground arith

abbrev pub body : CString → List ℕ
body text = text ++ 0 ∷ []

abbrev pub sent : ℕ → CString → List ℕ
sent type text =
    let size = 1 + 2 + length text + 1 in frame type (size % 256) (size / 256 % 256) (body text)

pub serialization-sent :
    (type : ℕ) (text : CString)
    → length text + 4 < u16_mod
    → serialization type text ≡ ok (record { length = length text + 4; bytes = sent type text })
unfolding serialization
serialization-sent type text h =
    rw (mod-eq_of_lt {n = 1 + 2 + length text + 1} {m = u16_mod} (omega arith)) (
      rw (le→leb (3 + (length text + 1)) (1 + 2 + length text + 1) (omega arith))
        (ap (λ n. ok (record { length = n; bytes = sent type text })) (omega arith)))

deserialization-sent :
    (type : ℕ) (text : CString)
    → length text + 4 < u16_mod
    → deserialization (sent type text) ≡ ok (record { type = type; payload = body text })
unfolding deserialization
deserialization-sent type text h =
    let size = 1 + 2 + length text + 1 in
    rw (
      copy_out-append_end (type ∷ size % 256 ∷ size / 256 % 256 ∷ []) (body text) 3
          ((size % 256 + 256 * (size / 256 % 256) + u16_mod - 3) % u16_mod) refl
          (omega (arith, length-append text (0 ∷ []))),
      deserialization,
    )

-- A text of at most 65531 bytes is serialized without fault, and the reader gets its type and the
-- text with its NUL, which reads back as the text; what follows stays in the socket.
pub read_stream-serialization :
    (type : ℕ) (text : CString) (rest : List ℕ)
    → length text + 4 < u16_mod
    → IsText text
    → (st : Stream) × (serialization type text ≡ ok st)
      × (st.length ≡ length st.bytes)
      × (buffer : List ℕ) × (read_stream (some (st.bytes ++ rest))
          ≡ ok (some (record { type = type; payload = buffer }), some rest))
      × (c_string buffer ≡ ok text)
unfolding read_stream
read_stream-serialization type text rest h p = (
  record { length = length text + 4; bytes = sent type text },
  serialization-sent type text h,
  omega (arith, length-append text (0 ∷ [])),
  body text,
  read_with-append type _ _ (body text) rest (omega (arith, length-append text (0 ∷ [])))
      deserialization _ (deserialization-sent type text h),
  c_string-append text [] p,
)

-- A longer text makes the length wrap, and the copy runs past the buffer.
pub serialization-overflow :
    (type : ℕ) (text : CString) → u16_mod ≤ length text + 4 → serialization type text ≡ fault
unfolding serialization
serialization-overflow type text h =
    rw (lt→leb (3 + (length text + 1)) ((1 + 2 + length text + 1) % u16_mod) (omega arith))

abbrev sent_pri : ℕ → CString → ℤ → List ℕ
sent_pri type text priority =
    let size = 1 + 2 + 4 + length text + 1 in
    frame type (size % 256) (size / 256 % 256) (bytes32 (word32 priority) ++ body text)

serialization_pri-fits :
    (type : ℕ) (text : CString) (priority : ℤ)
    → length text + 8 < u16_mod
    → serialization_pri type text priority
      ≡ ok (record { length = length text + 8; bytes = sent_pri type text priority })
unfolding serialization_pri
serialization_pri-fits type text priority h =
    rw (mod-eq_of_lt {n = 1 + 2 + 4 + length text + 1} {m = u16_mod} (omega arith)) (
      rw (le→leb (7 + (length text + 1)) (1 + 2 + 4 + length text + 1) (omega arith))
        (ap (λ n. ok (record { length = n; bytes = sent_pri type text priority })) (omega arith)))

word32-lt : (z : ℤ) → word32 z < 2 ^ 32
unfolding word32
word32-lt (pos n) = omega arith
word32-lt (negsuc n) = omega arith

pub word32-bytes :
    (w : ℕ)
    → w < 2 ^ 32
    → w % 256 + 256 * (w / 256 % 256) + 65536 * (w / 65536 % 256 + 256 * (w / 16777216 % 256)) ≡ w
word32-bytes w h = omega arith

deserialization_pri-sent :
    (type : ℕ) (text : CString) (priority : ℤ)
    → length text + 8 < u16_mod
    → IsInt32 priority
    → deserialization_pri (sent_pri type text priority)
      ≡ ok (record { type = type; payload = body text }, priority)
unfolding deserialization_pri
deserialization_pri-sent type text priority h p =
    let size = 1 + 2 + 4 + length text + 1 in
    let w = word32 priority in
    rw
      (
        copy_out-append_end (type ∷ size % 256 ∷ size / 256 % 256 ∷ bytes32 w) (body text) 7
            ((size % 256 + 256 * (size / 256 % 256) + u16_mod - 7) % u16_mod) refl
            (omega (arith, length-append text (0 ∷ []))),
        deserialization_pri,
      )
      (rw (word32-bytes w (word32-lt priority)) (rw (int32-word32 priority p)))

-- The first message: a script of at most 65527 bytes arrives with its type and its priority, any
-- int32_t, and reads back as the script.
pub read_stream_pri-serialization_pri :
    (type : ℕ) (text : CString) (priority : ℤ) (rest : List ℕ)
    → length text + 8 < u16_mod
    → IsText text
    → IsInt32 priority
    → (st : Stream) × (serialization_pri type text priority ≡ ok st)
      × (st.length ≡ length st.bytes)
      × (buffer : List ℕ) × (read_stream_pri (some (st.bytes ++ rest))
          ≡ ok (some (record { type = type; payload = buffer }, priority), some rest))
      × (c_string buffer ≡ ok text)
unfolding read_stream_pri
read_stream_pri-serialization_pri type text priority rest h p q = (
  record { length = length text + 8; bytes = sent_pri type text priority },
  serialization_pri-fits type text priority h,
  omega (arith, length-append text (0 ∷ [])),
  body text,
  read_with-append type _ _ (bytes32 (word32 priority) ++ body text) rest
      (omega (arith, length-append text (0 ∷ []))) deserialization_pri _
      (deserialization_pri-sent type text priority h q),
  c_string-append text [] p,
)
