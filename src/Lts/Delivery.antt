-- ===== src/Lts/Delivery.antt =====
-- The messages that wait in sendingList for a client, and the writes to its socket that deliver them.
use sisop_2012_2c.Shared.{
  ℕ, zero, suc, ◌+◌, ◌<◌, ◌≡◌, refl, sym, ap, ◌∙◌, true, Bool-cases, inl, inr, List, [], ◌∷◌, ◌++◌,
  Option, some, none, map, length, drop, ltb, lt→ltb, ◌==◌, if◌then◌else◌, arith,
}
use sisop_2012_2c.Shared.Outcome.{Outcome, ok, ◌>>=◌}
use sisop_2012_2c.Commons.{Collections, list_size}
use sisop_2012_2c.Doubles.{Doubles}
use sisop_2012_2c.Process.{Msg}
use sisop_2012_2c.System.{System}
use sisop_2012_2c.Wire.{u16_mod}
use sisop_2012_2c.Wire.RoundTrip.{serialization-sent}
use sisop_2012_2c.Lts.Search.{remove_first, remove_fd-remove_first}
use sisop_2012_2c.Lts.{Action, send, writable, list_fd_msg_get, send_pending, lts_event}

-- The messages of a client, and those of the others, both in their order.
abbrev pub messages_of : ℕ → List Msg → List Msg
messages_of fd [] = []
messages_of fd (m ∷ l) = if m.fd == fd then m ∷ messages_of fd l else messages_of fd l

abbrev pub others_of : ℕ → List Msg → List Msg
others_of fd [] = []
others_of fd (m ∷ l) = if m.fd == fd then others_of fd l else m ∷ others_of fd l

-- Each of them can be serialized.
abbrev pub AllFit : List Msg → Type 0
AllFit [] = Unit
AllFit (m ∷ l) = (length m.msg + 4 < u16_mod) × AllFit l

head? : List Msg → Option Msg
head? [] = none
head? (m ∷ l) = some m

-- Without a message of the client all are of others.
others_of-all : (fd : ℕ) (l : List Msg) → messages_of fd l ≡ [] → others_of fd l ≡ l
others_of-all fd [] e = refl
others_of-all fd (m ∷ l) e = elim (Bool-cases (m.fd == fd)) [
  | inl hit ↦ absurd (omega (arith, ap length (rw hit at e)))
  | inr other ↦ rw other (ap (λ (q : List Msg). m ∷ q) (others_of-all fd l (rw other at e)))
]

-- The first message of the client is the one that the search takes.
remove_first-messages :
    (fd : ℕ) (l : List Msg) (m : Msg) (ms : List Msg)
    → messages_of fd l ≡ m ∷ ms
    → (l' : List Msg) × (remove_first (λ x. x.fd) fd l ≡ (some m, l'))
      × (messages_of fd l' ≡ ms)
      × (others_of fd l' ≡ others_of fd l)
unfolding remove_first head?
remove_first-messages fd [] m ms e = absurd (omega (arith, ap length e))
remove_first-messages fd (x ∷ l) m ms e = elim (Bool-cases (x.fd == fd)) [
  | inl hit ↦
      let e' : x ∷ messages_of fd l ≡ m ∷ ms = rw hit at e in
      (
        l,
        rw (hit, remove_first) (ap (λ (o : Option Msg). (o, l)) (ap head? e')),
        ap (drop 1) e',
        rw hit refl,
      )
  | inr other ↦
      let e' : messages_of fd l ≡ m ∷ ms = rw other at e in
      let (l', r, these, those) = remove_first-messages fd l m ms e' in
      (
        x ∷ l',
        rw (other, remove_first) (rw r refl),
        rw other these,
        rw other (ap (λ (q : List Msg). x ∷ q) those),
      )
]

list_fd_msg_get-messages :
    ⦃c : Collections⦄ (fd : ℕ) (l : List Msg) (m : Msg) (ms : List Msg)
    → messages_of fd l ≡ m ∷ ms
    → (l' : List Msg) × (list_fd_msg_get l fd ≡ ok (some m, l'))
      × (messages_of fd l' ≡ ms)
      × (others_of fd l' ≡ others_of fd l)
      × (ltb 0 (list_size l) ≡ true)
unfolding list_fd_msg_get
list_fd_msg_get-messages fd [] m ms e = absurd (omega (arith, ap length e))
list_fd_msg_get-messages ⦃c⦄ fd (x ∷ l) m ms e =
    let (l', r, these, those) = remove_first-messages fd (x ∷ l) m ms e in
    (
      l',
      (remove_fd-remove_first (λ (y : Msg). y.fd) fd x l).0 ∙ ap ok r,
      these,
      those,
      rw c.size_law (lt→ltb 0 (length (x ∷ l)) (omega arith)),
    )

module _ {D : Type 0} ⦃c : Collections⦄ ⦃d : Doubles D⦄ where
  -- So many events of a client's socket that can be written to, each of which sends.
  abbrev pub writes : ℕ → ℕ → System D → Outcome (System D × List Action)
  writes fd zero s = ok (s, [])
  writes fd (suc n) s = do
    (s', actions) ← lts_event s (writable fd true)
    (s'', later) ← writes fd n s'
    ok (s'', actions ++ later)

  send_pending-first :
      (s : System D) (fd : ℕ) (m : Msg) (ms : List Msg)
      → messages_of fd s.sending_list ≡ m ∷ ms
      → length m.msg + 4 < u16_mod
      → (l' : List Msg) × (lts_event s (writable fd true)
          ≡ ok (record s { sending_list = l' }, send fd m.type m.msg ∷ []))
        × (messages_of fd l' ≡ ms)
        × (others_of fd l' ≡ others_of fd s.sending_list)
  unfolding lts_event send_pending
  send_pending-first s fd m ms e fits =
      let (l', found, these, those, some_wait) =
        list_fd_msg_get-messages fd s.sending_list m ms e in
      (
        l',
        rw (some_wait, lts_event)
            (rw (found, ◌>>=◌) (rw (serialization-sent m.type m.msg fits, ◌>>=◌) refl)),
        these,
        those,
      )

  deliver :
      (ms : List Msg) (s : System D) (fd : ℕ)
      → messages_of fd s.sending_list ≡ ms
      → AllFit ms
      → writes fd (length ms) s
        ≡ ok (
          record s { sending_list = others_of fd s.sending_list },
          map (λ m. send fd m.type m.msg) ms,
        )
  deliver [] s fd e fits =
      ap (λ (l : List Msg). ok (record s { sending_list = l }, []))
        (sym (others_of-all fd s.sending_list e))
  deliver (m ∷ ms) s fd e (fits, all_fit) =
      let (l', first, these, those) = send_pending-first s fd m ms e fits in
      rw (first, ◌>>=◌)
        (rw (deliver ms (record s { sending_list = l' }) fd these all_fit, ◌>>=◌)
          (ap
            (λ (l : List Msg).
              ok (record s { sending_list = l }, map (λ x. send fd x.type x.msg) (m ∷ ms)))
            those))

  -- Where the texts of the messages that wait for a client have at most 65531 bytes, so many writes to
  -- its socket send them, each once, in the order in which they came to wait, and the messages of the
  -- others still wait, in their order.
  pub writes-deliver :
      (s : System D) (fd : ℕ)
      → AllFit (messages_of fd s.sending_list)
      → writes fd (length (messages_of fd s.sending_list)) s
        ≡ ok (
          record s { sending_list = others_of fd s.sending_list },
          map (λ m. send fd m.type m.msg) (messages_of fd s.sending_list),
        )
  writes-deliver s fd fits = deliver (messages_of fd s.sending_list) s fd refl fits
