-- ===== src/Script.antt =====
-- The code segment of a process, PROCER/PP/src/procer_defs.c: the script cut into lines, and the
-- searches for a line. A pointer into a C string is what is left of it.
pub mod Lines
pub mod Jumps
pub mod Progress
use sisop_2012_2c.Shared.{
  ℕ, zero, suc, ◌+◌, Bool, true, false, ◌||◌, List, [], ◌∷◌, ◌++◌, CString, codes, str_eq, length,
  take, drop, leb, ◌==◌, if◌then◌else◌,
}
use sisop_2012_2c.Shared.Outcome.{Outcome, ok, fault, hang, ◌>>=◌}
use sisop_2012_2c.Commons.{Strings, string_trim}

abbrev pub u16_last : ℕ
u16_last = 65535

-- `text + n`: up to the byte behind the NUL it is a pointer, and there nothing can be read any more
abbrev pub advance : ℕ → CString → Outcome CString
advance n text = if leb n (length text) then ok (drop n text) else fault

-- for (lineLength = 0; not '\n', '\0' or '#'; lineLength++), in a uint16_t
unfoldable pub line_length : ℕ → CString → Outcome ℕ
line_length i [] = ok i
line_length i (b ∷ code) = elim (b == 10 || b == b'#') [
  | true ↦ ok i
  | false ↦ elim (i == u16_last) [ true ↦ hang | false ↦ line_length (i + 1) code ]
]

unfoldable pub strlen_cs : CString → ℕ
strlen_cs [] = 0
strlen_cs (b ∷ line) = elim (b == 10) [ true ↦ 0 | false ↦ suc (strlen_cs line) ]

module _ ⦃s : Strings⦄ where
  -- Each line takes one round, so the length of the script bounds the rounds. `lines_count` is a
  -- uint16_t that is one more at the end: where it comes to 0 the entry before the array is written.
  unfoldable pub create_lines : ℕ → ℕ → CString → Outcome (List CString)
  create_lines zero lines_count code = hang
  create_lines (suc fuel) lines_count code = do
    n ← line_length 0 code
    let line = string_trim (take n code)
    if leb u16_last (lines_count + 1) then fault else elim (drop n code) [
      | [] ↦ ok (line ∷ [])
      | b ∷ more ↦ (do
        next ← advance (strlen_cs code + 1) code
        rest ← create_lines fuel (lines_count + 1) next
        ok (line ∷ rest))
    ]

  -- The NULL behind the last line is the end of the list.
  unfoldable pub code_segment_creator : CString → Outcome (List CString)
  unfolding create_lines line_length strlen_cs
  code_segment_creator script = create_lines (suc (length script)) 0 script

-- for (i = 0; strcmp(line, code[i]) != 0; i++): past the last line strcmp reads through NULL
pub find_line : ℕ → CString → List CString → Outcome ℕ
unfolding str_eq
find_line i line [] = fault
find_line i line (l ∷ code) = elim (str_eq line l) [
  | true ↦ ok i
  | false ↦ elim (i == u16_last) [ true ↦ hang | false ↦ find_line (i + 1) line code ]
]

-- The bytes up to ';' or the end.
pub up_to_semicolon : CString → CString
up_to_semicolon [] = []
up_to_semicolon (b ∷ s) = elim (b == b';') [ true ↦ [] | false ↦ b ∷ up_to_semicolon s ]

-- The new PC.
pub change_pc : List CString → CString → Outcome ℕ
unfolding find_line up_to_semicolon
change_pc code tag_name = find_line 0 (up_to_semicolon tag_name ++ b':' ∷ []) code

pub find_function_line : List CString → CString → Outcome ℕ
unfolding find_line
find_function_line code fname = find_line 0 (codes "comienzo_funcion " ++ fname) code
