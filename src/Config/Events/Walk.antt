-- ===== src/Config/Events/Walk.antt =====
-- The loop over the events reads each of them, in order, and pp.config once for each that says that it
-- was modified.
use sisop_2012_2c.Shared.{
  ℕ, zero, suc, ◌+◌, ◌^◌, ◌≤◌, ◌<◌, ◌≡◌, ◌⊎◌, inl, inr, refl, sym, ap, ◌∙◌, Bool, ◌&&◌, List, [],
  ◌∷◌, ◌++◌, some, append_assoc, CString, codes, str_eq, length, length-append, drop,
  drop-append_length, get_elem?, lt→ltb, ge→ltb, eq→==, ne→==, if◌then◌else◌, arith,
}
use sisop_2012_2c.Shared.Outcome.{Outcome, ok, ◌>>=◌, >>=-cong, >>=_assoc}
use sisop_2012_2c.Wire.{read16, c_string, bytes32}
use sisop_2012_2c.Wire.RoundTrip.{IsText, c_string-append, word32-bytes}
use sisop_2012_2c.Config.Events.{
  event_size, action_size, read32, is_modify, event_action, on_event, events_loop, configure_round,
}

-- An event as the kernel writes it, with the NULs behind its name.
pub record InotifyEvent : Type 0 where
  pub wd : ℕ
  pub mask : ℕ
  pub cookie : ℕ
  pub name : CString
  pub padding : ℕ

abbrev pub nuls : ℕ → List ℕ
nuls zero = []
nuls (suc n) = 0 ∷ nuls n

abbrev pub name_length : InotifyEvent → ℕ
name_length e = length e.name + e.padding

abbrev pub event_bytes : InotifyEvent → List ℕ
event_bytes e =
    bytes32 e.wd
    ++ (bytes32 e.mask
        ++ (bytes32 e.cookie ++ (bytes32 (name_length e) ++ (e.name ++ nuls e.padding))))

abbrev pub all_bytes : List InotifyEvent → List ℕ
all_bytes [] = []
all_bytes (e ∷ events) = event_bytes e ++ all_bytes events

-- The mask and the length are words, and the event is of the directory, without a name, or has a name
-- that ends in a NUL and fits the buffer.
pub record IsEvent (e : InotifyEvent) : Type 0 where
  pub mask_lt : e.mask < 2 ^ 32
  pub length_lt : name_length e < 2 ^ 32
  pub name_text : IsText e.name
  pub name_fits : length e.name < action_size
  pub ended : ((e.name ≡ []) × (e.padding ≡ 0)) ⊎ ((k : ℕ) × (e.padding ≡ suc k))

abbrev pub AllEvents : List InotifyEvent → Type 0
AllEvents [] = Unit
AllEvents (e ∷ events) = IsEvent e × AllEvents events

-- Whether the event is of pp.config, and what the events come to.
abbrev pub of_config : InotifyEvent → Bool
of_config e = is_modify e.mask && str_eq e.name (codes "pp.config")

abbrev pub reload_for : {S : Type 0} → (S → Outcome S) → List InotifyEvent → S → Outcome S
reload_for reload [] s = ok s
reload_for reload (e ∷ events) s = do
  s' ← (if of_config e then reload s else ok s)
  reload_for reload events s'

get_elem?-drop : (l : List ℕ) (i k j : ℕ) → j ≡ i + k → get_elem? l j ≡ get_elem? (drop i l) k
get_elem?-drop l zero k j e = ap (get_elem? l) {x = j} {y = k} (omega (arith, e))
get_elem?-drop [] (suc i) k j e = refl
get_elem?-drop (x ∷ l) (suc i) k zero e = absurd (omega (arith, e))
get_elem?-drop (x ∷ l) (suc i) k (suc j) e = get_elem?-drop l i k j (omega (arith, e))

drop-drop : (l : List ℕ) (i k j : ℕ) → j ≡ i + k → drop j l ≡ drop k (drop i l)
drop-drop l zero k j e = ap (λ (n : ℕ). drop n l) {x = j} {y = k} (omega (arith, e))
drop-drop [] (suc i) zero zero e = refl
drop-drop [] (suc i) zero (suc j) e = refl
drop-drop [] (suc i) (suc k) zero e = refl
drop-drop [] (suc i) (suc k) (suc j) e = refl
drop-drop (x ∷ l) (suc i) k zero e = absurd (omega (arith, e))
drop-drop (x ∷ l) (suc i) k (suc j) e = drop-drop l i k j (omega (arith, e))

read16-drop : (l : List ℕ) (i k j : ℕ) → j ≡ i + k → read16 l j ≡ read16 (drop i l) k
read16-drop l i k j e =
    rw (get_elem?-drop l i k j e) (rw (get_elem?-drop l i (k + 1) (j + 1) (omega (arith, e))) refl)

read32-drop : (l : List ℕ) (i k j : ℕ) → j ≡ i + k → read32 l j ≡ read32 (drop i l) k
unfolding read32
read32-drop l i k j e =
    rw (read16-drop l i k j e) (rw (read16-drop l i (k + 2) (j + 2) (omega (arith, e))) refl)

length-nuls : (n : ℕ) → length (nuls n) ≡ n
length-nuls zero = refl
length-nuls (suc n) = ap suc (length-nuls n)

length-event_bytes : (e : InotifyEvent) → length (event_bytes e) ≡ event_size + name_length e
length-event_bytes e = omega (arith, length-append e.name (nuls e.padding), length-nuls e.padding)

module _ (e : InotifyEvent) (is_event : IsEvent e) (later buff : List ℕ) (i : ℕ)
    (here : drop i buff ≡ event_bytes e ++ later) where
  read32-mask : read32 buff (i + 4) ≡ ok e.mask
  unfolding read32
  read32-mask =
      read32-drop buff i 4 (i + 4) refl ∙ rw here (ap ok (word32-bytes e.mask is_event.mask_lt))

  read32-length : read32 buff (i + 12) ≡ ok (name_length e)
  unfolding read32
  read32-length =
      read32-drop buff i 12 (i + 12) refl
      ∙ rw here (ap ok (word32-bytes (name_length e) is_event.length_lt))

  drop-name : drop (i + event_size) buff ≡ e.name ++ nuls e.padding ++ later
  drop-name = drop-drop buff i event_size (i + event_size) refl ∙ rw here refl

  drop-event : drop (i + (event_size + name_length e)) buff ≡ later
  drop-event =
      drop-drop buff i (event_size + name_length e) (i + (event_size + name_length e)) refl
      ∙ rw here (
          ap (λ (n : ℕ). drop n (event_bytes e ++ later)) {x = event_size + name_length e}
            {y = length (event_bytes e)} (omega (arith, length-event_bytes e))
          ∙ drop-append_length (event_bytes e) later)

  name-read : (k : ℕ) → e.padding ≡ suc k → c_string (drop (i + event_size) buff) ≡ ok e.name
  name-read k padded = rw drop-name (
      rw (append_assoc e.name (nuls e.padding) later)
        (rw padded (c_string-append e.name (nuls k ++ later) is_event.name_text)))

  -- The directory's name is not pp.config, as little as no name is.
  action-reload :
      {S : Type 0} (reload : S → Outcome S) (s : S)
      → (do action ← event_action buff i (name_length e); on_event reload e.mask action s)
        ≡ (if of_config e then reload s else ok s)
  unfolding event_action on_event str_eq
  action-reload reload s = elim is_event.ended [
    | inl (unnamed, bare) ↦
        rw (eq→== (name_length e) 0 (omega (arith, ap length unnamed, bare)), event_action)
          (rw unnamed refl)
    | inr (k, padded) ↦
        rw (ne→== (name_length e) 0 (λ z. omega (arith, padded, z)), event_action)
          (rw (name-read k padded)
            (rw (lt→ltb (length e.name) action_size is_event.name_fits) refl))
  ]

-- From any position on, where the events and nothing else come up to the end.
events_loop-from :
    {S : Type 0} (reload : S → Outcome S) (fuel : ℕ) (events : List InotifyEvent)
    (stale buff : List ℕ) (len i : ℕ) (s : S)
    → AllEvents events
    → length events < fuel
    → drop i buff ≡ all_bytes events ++ stale
    → len ≡ i + length (all_bytes events)
    → events_loop reload fuel buff len i s ≡ reload_for reload events s
unfolding events_loop
events_loop-from reload zero events stale buff len i s h more here ends =
    absurd (omega (arith, more))
events_loop-from reload (suc fuel) [] stale buff len i s h more here ends =
    rw (ge→ltb i len (omega (arith, ends)), events_loop) refl
events_loop-from {S = S} reload (suc fuel) (e ∷ events) stale buff len i s (is_event, h) more here
      ends =
    let later = all_bytes events ++ stale in
    let here' : drop i buff ≡ event_bytes e ++ later =
      here ∙ append_assoc (event_bytes e) (all_bytes events) stale in
    let next = i + (event_size + name_length e) in
    let loop = λ (s' : S). events_loop reload fuel buff len next s' in
    let ends' : len ≡ next + length (all_bytes events) =
      omega (arith, ends, length-append (event_bytes e) (all_bytes events), length-event_bytes e) in
    rw (lt→ltb i len (omega (arith, ends', length-event_bytes e)), events_loop)
      (rw (read32-mask e is_event later buff i here', ◌>>=◌)
        (rw (read32-length e is_event later buff i here', ◌>>=◌)
          (sym (
              >>=_assoc (event_action buff i (name_length e)) (λ a. on_event reload e.mask a s)
                loop)
            ∙ rw (action-reload e is_event later buff i here' reload s) (
                >>=-cong (if of_config e then reload s else ok s) loop (reload_for reload events)
                  (λ s'.
                    events_loop-from reload fuel events stale buff len next s' h
                      (omega (arith, more)) (drop-event e is_event later buff i here') ends')))))

length-all_bytes : (events : List InotifyEvent) → length events ≤ length (all_bytes events)
length-all_bytes [] = omega arith
length-all_bytes (e ∷ events) = omega (
  arith,
  length-append (event_bytes e) (all_bytes events),
  length-event_bytes e,
  length-all_bytes events,
)

-- A round whose read gives whole events, each with a mask and a length of 32 bits and no name or a
-- name that ends in a NUL and is shorter than the buffer for it, over whatever was in the buffer: it
-- reads pp.config again once for each event that says that pp.config was modified, one after the
-- other, and for no other event, and comes to what these readings come to.
pub configure_round-reload_for :
    {S : Type 0} (reload : S → Outcome S) (events : List InotifyEvent) (buff : List ℕ) (s : S)
    → AllEvents events
    → configure_round reload (some (all_bytes events)) (buff, s) ≡ (do
      s' ← reload_for reload events s
      ok (all_bytes events ++ drop (length (all_bytes events)) buff, s'))
unfolding configure_round
configure_round-reload_for reload events buff s h =
    let bytes = all_bytes events in
    let stale = drop (length bytes) buff in
    rw
      (
        events_loop-from reload (suc (length bytes)) events stale (bytes ++ stale) (length bytes) 0
            s h (omega (arith, length-all_bytes events)) refl (omega arith),
        configure_round,
      )
      refl
