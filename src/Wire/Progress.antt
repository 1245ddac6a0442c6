-- ===== src/Wire/Progress.antt =====
-- The reads of the wire come to an end whatever has arrived, and a message that is read takes a byte
-- of it at least.
use sisop_2012_2c.Shared.{
  ℕ, zero, suc, ◌+◌, ◌-◌, ◌*◌, ◌%◌, ◌≤◌, ◌<◌, ◌≡◌, false, List, [], ◌∷◌, Option, none, some,
  CString, arith, length, drop, leb, ◌==◌, get_elem?,
}
use sisop_2012_2c.Shared.Outcome.{ok, fault, deref, Comes, Any, Comes->>=, Comes-if, deref-Comes}
use sisop_2012_2c.Wire.{
  Incoming, u16_mod, read16, copy_out, receive, deserialization, read_with, read_stream,
  serialization, c_string, parse_stream,
}

pub c_string-Comes : (buffer : List ℕ) → Comes Any (c_string buffer)
unfolding c_string
c_string-Comes [] = _
c_string-Comes (zero ∷ buffer) = _
c_string-Comes (suc b ∷ buffer) =
    Comes->>= Any Any (c_string buffer) (λ text. ok (suc b ∷ text)) (c_string-Comes buffer)
      (λ t u. _)

pub serialization-Comes : (type : ℕ) (text : CString) → Comes Any (serialization type text)
unfolding serialization
serialization-Comes type text =
    let size = (1 + 2 + length text + 1) % u16_mod in
    Comes-if Any (leb (3 + (length text + 1)) size) (ok _) fault (λ e. _) (λ e. _)

copy_out-Comes : (stream : List ℕ) (offset n : ℕ) → Comes Any (copy_out stream offset n)
copy_out-Comes stream offset n =
    Comes-if Any (leb (offset + n) (length stream)) (ok _) fault (λ e. _) (λ e. _)

read16-Comes : (stream : List ℕ) (offset : ℕ) → Comes Any (read16 stream offset)
read16-Comes stream offset =
    Comes->>= Any Any (deref (get_elem? stream offset)) _ (deref-Comes (get_elem? stream offset))
      (λ lo u.
        Comes->>= Any Any (deref (get_elem? stream (offset + 1))) (λ hi. ok (lo + 256 * hi))
          (deref-Comes (get_elem? stream (offset + 1))) (λ hi v. _))

deserialization-Comes : (stream : List ℕ) → Comes Any (deserialization stream)
unfolding deserialization
deserialization-Comes stream =
    Comes->>= Any Any (deref (get_elem? stream 0)) _ (deref-Comes (get_elem? stream 0)) (λ type u.
      Comes->>= Any Any (read16 stream 1) _ (read16-Comes stream 1) (λ size v.
        Comes->>= Any Any (copy_out stream 3 ((size + u16_mod - 3) % u16_mod))
          (λ payload. ok (record { type = type; payload = payload }))
          (copy_out-Comes stream 3 ((size + u16_mod - 3) % u16_mod)) (λ payload z. _)))

-- What is left after a message is less than there was.
abbrev pub Leaves {ℓ} : {A : Type ℓ} → ℕ → Option A × List ℕ → Type 0
Leaves n (none, rest) = Unit
Leaves n (some a, rest) = length rest < n

length-drop : (n : ℕ) (l : List ℕ) → length (drop n l) ≤ length l
length-drop zero l = omega arith
length-drop (suc n) [] = omega arith
length-drop (suc n) (x ∷ l) = omega (arith, length-drop n l)

drop-Leaves :
    (n : ℕ) (b : ℕ) (l : List ℕ) → (n == 0) ≡ false → length (drop n (b ∷ l)) < suc (length l)
drop-Leaves zero b l h = ground arith
drop-Leaves (suc n) b l h = omega (arith, length-drop n l)

receive-Leaves : (arrived : List ℕ) → Comes (Leaves (length arrived)) (receive arrived)
unfolding receive
receive-Leaves [] = _
receive-Leaves (b ∷ arrived) =
    let there = b ∷ arrived in
    let P = Leaves (length there) in
    Comes->>= Any P (read16 there 1) _ (read16-Comes there 1) (λ size u.
      Comes->>= Any P (copy_out there 0 size) _ (copy_out-Comes there 0 size) (λ stream_in v.
        Comes-if P (size == 0) (ok (none, there)) (ok (some stream_in, drop size there)) (λ e. _)
          (drop-Leaves size b arrived)))

-- The same of a message and what it leaves in the socket.
abbrev pub Takes {ℓ} : {A : Type ℓ} → ℕ → Option A × Incoming → Type 0
Takes n (none, rest) = Unit
Takes n (some a, none) = ⊥
Takes n (some a, some rest) = length rest < n

-- Whatever has arrived, a read comes to a message or an error, or faults.
pub read_stream-Takes :
    (arrived : List ℕ) → Comes (Takes (length arrived)) (read_stream (some arrived))
unfolding read_stream read_with parse_stream
read_stream-Takes arrived =
    Comes->>= (Leaves (length arrived)) (Takes (length arrived)) (receive arrived)
      (parse_stream deserialization) (receive-Leaves arrived) parsed
  where
    parsed :
        (r : Option (List ℕ) × List ℕ)
        → Leaves (length arrived) r
        → Comes (Takes (length arrived)) (parse_stream deserialization r)
    parsed (none, rest) h = _
    parsed (some stream_in, rest) h =
        Comes->>= Any (Takes (length arrived)) (deserialization stream_in)
          (λ message. ok (some message, some rest)) (deserialization-Comes stream_in) (λ m u. h)
