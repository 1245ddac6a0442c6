-- ===== src/Config/Events.antt =====
-- The watch over pp.config: the loop of `configure` in PROCER/PP/src/configure.c over what one read of
-- the inotify descriptor gives. The kernel's `struct inotify_event` is its layout: four words of 32
-- bits (wd, mask, cookie and len) and `len` bytes of a name that is padded with NULs.
pub mod Walk
use sisop_2012_2c.Shared.{
  ℕ, zero, suc, ◌+◌, ◌-◌, ◌*◌, ◌/◌, ◌%◌, ◌<◌, ◌≡◌, refl, Bool, true, false, ◌&&◌, not, List, [],
  ◌∷◌, ◌++◌, Option, none, some, CString, codes, str_eq, length, drop, take, ltb, leb, ◌==◌,
  if◌then◌else◌,
}
use sisop_2012_2c.Shared.Outcome.{Outcome, ok, fault, hang, exits, ◌>>=◌}
use sisop_2012_2c.Commons.{Collections}
use sisop_2012_2c.Doubles.{Doubles}
use sisop_2012_2c.System.{System}
use sisop_2012_2c.Config.{Config, configuration_reader}
use sisop_2012_2c.Wire.{read16, copy_out, c_string, bytes32}

-- sizeof(struct inotify_event), and of `action`: 81 + FILENAME_MAX
abbrev pub event_size : ℕ
event_size = 16

abbrev pub action_size : ℕ
action_size = 4177

-- A word of 32 bits, little-endian.
pub read32 : List ℕ → ℕ → Outcome ℕ
read32 buff offset = do lo ← read16 buff offset; hi ← read16 buff (offset + 2); ok (lo + 65536 * hi)

-- `mask & IN_MODIFY`, which is bit 1
abbrev pub is_modify : ℕ → Bool
is_modify mask = mask / 2 % 2 == 1

-- strcpy(action, pevent->name), or of `target`; NULs fill the rest of `action`.
pub event_action : List ℕ → ℕ → ℕ → Outcome CString
event_action buff i len = if len == 0 then ok (codes "./") else (do
  name ← c_string (drop (i + event_size) buff)
  (if ltb (length name) action_size then ok name else fault))

module _ {S : Type 0} (reload : S → Outcome S) where
  -- The body of the inner loop: pp.config is read again where it was modified.
  pub on_event : ℕ → CString → S → Outcome S
  unfolding str_eq
  on_event mask action s =
      if is_modify mask && str_eq action (codes "pp.config") then reload s else ok s

  -- while (i < len), on fuel; `buff` is all that may be read.
  pub events_loop : ℕ → List ℕ → ℕ → ℕ → S → Outcome S
  unfolding on_event event_action read32
  events_loop zero buff len i s = hang
  events_loop (suc fuel) buff len i s = elim (ltb i len) [
    | false ↦ ok s
    | true ↦ (do
      mask ← read32 buff (i + 4)
      name_len ← read32 buff (i + 12)
      action ← event_action buff i name_len
      s' ← on_event mask action s
      events_loop fuel buff len (i + (event_size + name_len)) s')
  ]

  -- The start of the thread: the first reading, inotify_init and inotify_add_watch, whose failures
  -- abort.
  pub configure_start : Bool → Bool → S → Outcome S
  configure_start made watched s = do s' ← reload s; (if made && watched then ok s' else exits)

  -- One round of while (true): `read` gives -1, which no `i` is below, or bytes at the front of `buff`.
  -- An event takes 16 bytes at least, so the fuel is above the rounds.
  pub configure_round : Option (List ℕ) → List ℕ × S → Outcome (List ℕ × S)
  unfolding events_loop
  configure_round none (buff, s) = ok (buff, s)
  configure_round (some bytes) (buff, s) = do
    let buff' = bytes ++ drop (length bytes) buff
    s' ← events_loop (suc (length bytes)) buff' (length bytes) 0 s
    ok (buff', s')

module _ {D : Type 0} ⦃c : Collections⦄ ⦃d : Doubles D⦄ where
  -- config_create and configurationReader, for the n-th contents of pp.config.
  pub reload_config : (ℕ → Config D) → ℕ × System D → Outcome (ℕ × System D)
  reload_config configs (n, s) = do s' ← configuration_reader (configs n) s; ok (suc n, s')
