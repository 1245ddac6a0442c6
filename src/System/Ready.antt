-- ===== src/System/Ready.antt =====
-- What the threads that neither dispatch nor schedule leave alone: LPL and the settings.
use sisop_2012_2c.Shared.{◌≡◌}
use sisop_2012_2c.Process.{ProcessImage, Channel}
use sisop_2012_2c.System.{System, Settings}

module _ {D : Type 0} where
  -- LPL and the settings are these.
  abbrev pub Unmoved : Channel (ProcessImage D) → Settings D → System D → Type 0
  Unmoved ready t s = (s.lpl ≡ ready) × (s.settings ≡ t)
