-- ===== src/Script/Jumps.antt =====
-- The searches for a line: they stop at the first line that is the one wanted.
use sisop_2012_2c.Shared.{
  ℕ, ◌+◌, ◌≤◌, ◌≡◌, refl, ◌∙◌, ap, false, List, [], ◌∷◌, ◌++◌, CString, codes, str_eq, str_eq_refl,
  length, arith, ◌==◌, ne→==,
}
use sisop_2012_2c.Shared.Outcome.{ok, fault}
use sisop_2012_2c.Script.{find_line, up_to_semicolon, change_pc, find_function_line, u16_last}

-- None of these lines is the one wanted.
abbrev pub IsAbsent : CString → List CString → Type 0
IsAbsent line [] = Unit
IsAbsent line (l ∷ code) = (str_eq line l ≡ false) × IsAbsent line code

find_line-first :
    (i : ℕ) (line : CString) (before after : List CString)
    → IsAbsent line before
    → i + length before ≤ u16_last
    → find_line i line (before ++ line ∷ after) ≡ ok (i + length before)
unfolding find_line
find_line-first i line [] after a h = rw (str_eq_refl line, find_line) (ap ok (omega arith))
find_line-first i line (l ∷ before) after a h =
    rw (a.0, find_line)
      (rw (ne→== i u16_last (λ e. omega arith))
        (find_line-first (i + 1) line before after a.1 (omega arith) ∙ ap ok (omega arith)))

find_line-absent :
    (i : ℕ) (line : CString) (code : List CString)
    → IsAbsent line code
    → i + length code ≤ u16_last
    → find_line i line code ≡ fault
unfolding find_line
find_line-absent i line [] a h = refl
find_line-absent i line (l ∷ code) a h =
    rw (a.0, find_line)
      (rw (ne→== i u16_last (λ e. omega arith))
        (find_line-absent (i + 1) line code a.1 (omega arith)))

-- No ';' is in the text.
abbrev pub NoSemicolon : CString → Type 0
NoSemicolon [] = Unit
NoSemicolon (b ∷ s) = ((b == b';') ≡ false) × NoSemicolon s

up_to_semicolon-append :
    (tag rest : CString) → NoSemicolon tag → up_to_semicolon (tag ++ b';' ∷ rest) ≡ tag
unfolding up_to_semicolon
up_to_semicolon-append [] rest h = refl
up_to_semicolon-append (b ∷ tag) rest h =
    rw (h.0, up_to_semicolon) (ap (◌∷◌ b) (up_to_semicolon-append tag rest h.1))

up_to_semicolon-whole : (tag : CString) → NoSemicolon tag → up_to_semicolon tag ≡ tag
unfolding up_to_semicolon
up_to_semicolon-whole [] h = refl
up_to_semicolon-whole (b ∷ tag) h =
    rw (h.0, up_to_semicolon) (ap (◌∷◌ b) (up_to_semicolon-whole tag h.1))

-- A jump to a tag, with or without a time behind it, goes to the first line "tag:" of a script of at
-- most 65535 lines before it; in a script without that line the search reads through the NULL that
-- ends the lines.
pub change_pc-first :
    (tag time : CString) (before after code : List CString)
    → NoSemicolon tag
    → IsAbsent (tag ++ b':' ∷ []) before
    → length before ≤ u16_last
    → IsAbsent (tag ++ b':' ∷ []) code
    → length code ≤ u16_last
    → (change_pc (before ++ (tag ++ b':' ∷ []) ∷ after) tag ≡ ok (length before))
      × (change_pc (before ++ (tag ++ b':' ∷ []) ∷ after) (tag ++ b';' ∷ time) ≡ ok (length before))
      × (change_pc code tag ≡ fault)
unfolding change_pc
change_pc-first tag time before after code n a h b k = (
  rw (up_to_semicolon-whole tag n)
      (find_line-first 0 (tag ++ b':' ∷ []) before after a (omega arith) ∙ ap ok (omega arith)),
  rw (up_to_semicolon-append tag time n)
      (find_line-first 0 (tag ++ b':' ∷ []) before after a (omega arith) ∙ ap ok (omega arith)),
  rw (up_to_semicolon-whole tag n) (find_line-absent 0 (tag ++ b':' ∷ []) code b (omega arith)),
)

-- A call goes to the first line "comienzo_funcion name", and without it the search reads through the
-- NULL behind the last line.
pub find_function_line-first :
    (name : CString) (before after code : List CString)
    → IsAbsent (codes "comienzo_funcion " ++ name) before
    → length before ≤ u16_last
    → IsAbsent (codes "comienzo_funcion " ++ name) code
    → length code ≤ u16_last
    → (find_function_line (before ++ (codes "comienzo_funcion " ++ name) ∷ after) name
        ≡ ok (length before))
      × (find_function_line code name ≡ fault)
unfolding find_function_line
find_function_line-first name before after code a h b k = (
  find_line-first 0 (codes "comienzo_funcion " ++ name) before after a (omega arith)
      ∙ ap ok (omega arith),
  find_line-absent 0 (codes "comienzo_funcion " ++ name) code b (omega arith),
)
