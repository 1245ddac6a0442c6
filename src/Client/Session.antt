-- ===== src/Client/Session.antt =====
-- The session of the client as a conversation: what it should do with the notices that PP sends, in
-- their order, without bytes, buffers or fuel; and that the loop over the socket does it.
use sisop_2012_2c.Shared.{
  ℕ, zero, suc, ◌+◌, ◌%◌, ◌≤◌, ◌<◌, ◌≡◌, refl, ◌≢◌, Bool, List, [], ◌∷◌, ◌++◌, some, none, CString,
  arith, length, length-append, ne→==, if◌then◌else◌, Bool-cases, inl, inr, leb,
}
use sisop_2012_2c.Shared.Outcome.{Outcome, ok, ◌>>=◌, Holds-ok, Holds-if, Holds-fault}
use sisop_2012_2c.Wire.{u16_mod, Stream, serialization, read_stream, c_string}
use sisop_2012_2c.Wire.RoundTrip.{IsText, read_stream-serialization}
use sisop_2012_2c.Wire.Reading.{read_stream-nothing}
use sisop_2012_2c.Client.{
  info, shown, success, failure, Conclusion, preceded, resume_reply, end_reply, lost_effects, Reply,
  client_reply, client_session,
}

-- What PP tells a client: a text to show, a suspension, the end, or a message of a type that the
-- client does not know.
pub data Notice : Type 0 where
  says suspends ends : CString → Notice
  unknown : ℕ → CString → Notice

abbrev pub notice_type : Notice → ℕ
notice_type (says text) = b'N'
notice_type (suspends text) = b'S'
notice_type (ends text) = b'T'
notice_type (unknown type text) = type

abbrev pub notice_text : Notice → CString
notice_text (says text) = text
notice_text (suspends text) = text
notice_text (ends text) = text
notice_text (unknown type text) = text

-- A text that a message can carry, and no known type for `unknown`.
abbrev pub IsNotice : Notice → Type 0
IsNotice (unknown type text) =
    (length text + 4 < u16_mod) × IsText text × (type ≢ b'N') × (type ≢ b'S') × (type ≢ b'T')
IsNotice notice = (length (notice_text notice) + 4 < u16_mod) × IsText (notice_text notice)

abbrev pub AllNotices : List Notice → Type 0
AllNotices [] = Unit
AllNotices (notice ∷ rest) = IsNotice notice × AllNotices rest

-- The bytes of the notices, as PP writes them one after the other.
abbrev pub write_notices : List Notice → Outcome (List ℕ)
write_notices [] = ok []
write_notices (notice ∷ rest) = do
  stream ← serialization (notice_type notice) (notice_text notice)
  later ← write_notices rest
  ok (stream.bytes ++ later)

-- The request to resume is the same bytes each time.
abbrev pub resume_request : List ℕ
resume_request = b'R' ∷ 12 ∷ 0 ∷ 82 ∷ 101 ∷ 97 ∷ 110 ∷ 117 ∷ 100 ∷ 97 ∷ 114 ∷ 0 ∷ []

-- The conversation: texts are shown, a suspension is answered by a request to resume, which ends the
-- client if it cannot be sent, and the end ends it; so does the loss of PP.
abbrev pub attend : (ℕ → Bool) → ℕ → List Notice → Conclusion
attend resumed n [] = record { exit = success; effects = lost_effects }
attend resumed n (says text ∷ rest) =
    preceded (info text ∷ shown text ∷ []) (attend resumed (suc n) rest)
attend resumed n (suspends text ∷ rest) =
    let later = attend resumed (suc n) rest in
    let reply = resume_reply (resumed n) text resume_request in
    if resumed n
    then preceded reply.effects later
    else record { exit = failure; effects = reply.effects }
attend resumed n (ends text ∷ rest) = record { exit = success; effects = (end_reply text).effects }
attend resumed n (unknown type text ∷ rest) = attend resumed (suc n) rest

-- What a notice is answered with.
abbrev answer : Bool → Notice → Reply
answer resumed (says text) = record { ends = none; effects = info text ∷ shown text ∷ [] }
answer resumed (suspends text) = resume_reply resumed text resume_request
answer resumed (ends text) = end_reply text
answer resumed (unknown type text) = record { ends = none; effects = [] }

client_reply-answer :
    (resumed : Bool) (notice : Notice) (buffer : List ℕ)
    → IsNotice notice
    → c_string buffer ≡ ok (notice_text notice)
    → client_reply resumed (record { type = notice_type notice; payload = buffer })
      ≡ ok (answer resumed notice)
unfolding client_reply serialization
client_reply-answer resumed (says text) buffer h e = rw e refl
client_reply-answer resumed (suspends text) buffer h e = rw e refl
client_reply-answer resumed (ends text) buffer h e = rw e refl
client_reply-answer resumed (unknown type text) buffer (l, t, a, b, d) e =
    rw (ne→== type b'N' a) (rw (ne→== type b'S' b) (rw (ne→== type b'T' d) refl))

-- One round of the loop with a notice at the front of the socket.
session-step :
    (fuel : ℕ) (resumed : ℕ → Bool) (n : ℕ) (notice : Notice) (bytes buffer rest : List ℕ)
    → IsNotice notice
    → read_stream (some bytes)
      ≡ ok (some (record { type = notice_type notice; payload = buffer }), some rest)
    → c_string buffer ≡ ok (notice_text notice)
    → client_session (suc fuel) resumed n (some bytes) ≡ elim (answer (resumed n) notice).ends [
      | some exit ↦ ok (record { exit = exit; effects = (answer (resumed n) notice).effects })
      | none ↦ (do
        later ← client_session fuel resumed (suc n) (some rest)
        ok (preceded (answer (resumed n) notice).effects later))
    ]
unfolding client_session
session-step fuel resumed n notice bytes buffer rest h read text =
    rw (read, client_session) (rw (client_reply-answer (resumed n) notice buffer h text) refl)

notice-fits :
    (notice : Notice)
    → IsNotice notice
    → (length (notice_text notice) + 4 < u16_mod) × IsText (notice_text notice)
notice-fits (says text) h = h
notice-fits (suspends text) h = h
notice-fits (ends text) h = h
notice-fits (unknown type text) (l, t, a, b, d) = (l, t)

-- What the loop does with the rest, if it does with it what it should.
session-attends :
    (fuel : ℕ) (resumed : ℕ → Bool) (n : ℕ) (notice : Notice) (rest : List Notice)
    (bytes buffer later : List ℕ)
    → IsNotice notice
    → read_stream (some bytes)
      ≡ ok (some (record { type = notice_type notice; payload = buffer }), some later)
    → c_string buffer ≡ ok (notice_text notice)
    → client_session fuel resumed (suc n) (some later) ≡ ok (attend resumed (suc n) rest)
    → client_session (suc fuel) resumed n (some bytes) ≡ ok (attend resumed n (notice ∷ rest))
session-attends fuel resumed n (says text) rest bytes buffer later h read same ih =
    rw (session-step fuel resumed n (says text) bytes buffer later h read same) (rw ih refl)
session-attends fuel resumed n (ends text) rest bytes buffer later h read same ih =
    session-step fuel resumed n (ends text) bytes buffer later h read same
session-attends fuel resumed n (unknown type text) rest bytes buffer later h read same ih =
    rw (session-step fuel resumed n (unknown type text) bytes buffer later h read same) (rw ih refl)
session-attends fuel resumed n (suspends text) rest bytes buffer later h read same ih =
    rw (session-step fuel resumed n (suspends text) bytes buffer later h read same)
      (elim (Bool-cases (resumed n)) [
        | inl e ↦ rw e (rw ih (rw e refl))
        | inr e ↦ rw e (rw e refl)
      ])

session-nothing :
    (fuel : ℕ) (resumed : ℕ → Bool) (n : ℕ)
    → client_session (suc fuel) resumed n (some []) ≡ ok (attend resumed n [])
unfolding client_session
session-nothing fuel resumed n = rw read_stream-nothing refl

serialization-nonempty :
    (type : ℕ) (text : CString) (stream : Stream)
    → serialization type text ≡ ok stream
    → 0 < length stream.bytes
unfolding serialization
serialization-nonempty type text =
    (Holds-if {P = λ (s : Stream). 0 < length s.bytes}
      (leb (3 + (length text + 1)) ((1 + 2 + length text + 1) % u16_mod))
      (λ e. Holds-ok _ (omega arith)) (λ e. Holds-fault)).of_value

-- Notices that messages can carry are written without fault, and the loop over their bytes ends
-- within a round for each and one more, and shows, logs, sends and ends as the conversation does.
pub client_session-attend :
    (resumed : ℕ → Bool) (n : ℕ) (notices : List Notice)
    → AllNotices notices
    → (bytes : List ℕ) × (write_notices notices ≡ ok bytes)
      × (length notices ≤ length bytes)
      × ((fuel : ℕ)
          → length notices < fuel
          → client_session fuel resumed n (some bytes) ≡ ok (attend resumed n notices))
client_session-attend resumed n [] h = ([], refl, omega arith, nothing)
  where
    nothing :
        (fuel : ℕ) → 0 < fuel → client_session fuel resumed n (some []) ≡ ok (attend resumed n [])
    nothing zero more = absurd (omega (arith, more))
    nothing (suc fuel) more = session-nothing fuel resumed n
client_session-attend resumed n (notice ∷ rest) (h, k) =
    let (fits, text) = notice-fits notice h in
    let (later, written, enough, ih) = client_session-attend resumed (suc n) rest k in
    let (stream, is_sent, l, buffer, read, same) =
      read_stream-serialization (notice_type notice) (notice_text notice) later fits text in
    (
      stream.bytes ++ later,
      rw is_sent (rw written refl),
      omega (
        arith,
        enough,
        length-append stream.bytes later,
        serialization-nonempty (notice_type notice) (notice_text notice) stream is_sent,
      ),
      more (stream.bytes ++ later) buffer later read same ih,
    )
  where
    more :
        (bytes buffer later : List ℕ)
        → read_stream (some bytes)
          ≡ ok (some (record { type = notice_type notice; payload = buffer }), some later)
        → c_string buffer ≡ ok (notice_text notice)
        → ((fuel : ℕ)
            → length rest < fuel
            → client_session fuel resumed (suc n) (some later) ≡ ok (attend resumed (suc n) rest))
        → (fuel : ℕ) → suc (length rest) < fuel
        → client_session fuel resumed n (some bytes) ≡ ok (attend resumed n (notice ∷ rest))
    more bytes buffer later read same ih zero fits = absurd (omega (arith, fits))
    more bytes buffer later read same ih (suc fuel) fits =
        session-attends fuel resumed n notice rest bytes buffer later h read same
          (ih fuel (omega (arith, fits)))
