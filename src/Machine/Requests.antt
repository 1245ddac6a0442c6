-- ===== src/Machine/Requests.antt =====
-- The requests of I/O that set a variable, x=io(time,mode), in the program and in a function.
use sisop_2012_2c.Shared.{ℕ, ◌≡◌, false, [], ◌∷◌, ◌++◌, CString, ◌==◌}
use sisop_2012_2c.Shared.Outcome.{◌>>=◌}
use sisop_2012_2c.Doubles.{Doubles}
use sisop_2012_2c.Machine.{Machine}

abbrev pub NoComma : CString → Type 0
NoComma [] = Unit
NoComma (b ∷ s) = ((b == b',') ≡ false) × NoComma s

-- x=io(time,mode)
abbrev pub request_line : ℕ → CString → ℕ → CString
request_line name time mode = name ∷ b'=' ∷ b'i' ∷ b'o' ∷ b'(' ∷ (time ++ b',' ∷ mode ∷ b')' ∷ [])
