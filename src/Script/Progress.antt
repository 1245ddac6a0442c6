-- ===== src/Script/Progress.antt =====
-- The searches of the lines come to an end where the script has at most 65535 of them.
use sisop_2012_2c.Shared.{
  ℕ, ◌+◌, ◌≤◌, List, [], ◌∷◌, CString, length, leb, ◌==◌, arith, ==-eq, str_eq,
}
use sisop_2012_2c.Shared.Outcome.{Any, Settles, Settles-ok, Settles-fault, Settles-if, Settles-elim}
use sisop_2012_2c.Script.{u16_last, advance, find_line, change_pc}

pub advance-Settles : (n : ℕ) (text : CString) → Settles Any (advance n text)
advance-Settles n text = Settles-if (leb n (length text)) (λ e. Settles-ok _ _) (λ e. Settles-fault)

find_line-Settles :
    (i : ℕ) (line : CString) (code : List CString)
    → i + length code ≤ 65535
    → Settles Any (find_line i line code)
unfolding find_line
find_line-Settles i line [] h = Settles-fault
find_line-Settles i line (l ∷ code) h =
    Settles-elim (str_eq line l) (λ hit. Settles-ok _ _)
      (λ e.
        Settles-elim (i == u16_last) (λ last. absurd (omega (arith, h, ==-eq i u16_last last)))
          (λ f. find_line-Settles (i + 1) line code (omega (arith, h))))

pub change_pc-Settles :
    (code : List CString) (tag : CString) → length code ≤ 65535 → Settles Any (change_pc code tag)
unfolding change_pc
change_pc-Settles code tag h = find_line-Settles 0 _ code (omega (arith, h))
