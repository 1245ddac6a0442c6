-- ===== src/Machine/Expression.antt =====
-- The right side of an assignment: the two nested loops of `processExecution` and `functionExecution`
-- over the text behind the variable, which begins with '='.
pub mod Sum
pub mod Progress
use sisop_2012_2c.Shared.{
  ℕ, zero, suc, Bool, true, false, ◌||◌, List, [], ◌∷◌, Option, CString, length, ◌==◌,
  if◌then◌else◌,
}
use sisop_2012_2c.Shared.Int.{ℤ, pos}
use sisop_2012_2c.Shared.Outcome.{Outcome, ok, hang, ◌>>=◌}
use sisop_2012_2c.Shared.Number.{atoi, int_add, int_sub}
use sisop_2012_2c.Process.{Variable}
use sisop_2012_2c.Memory.{read_data}

-- The inner loop: the word up to '+', '-', ';' or the end, and what is left.
abbrev ends_word : ℕ → Bool
ends_word b = b == b'+' || b == b'-' || b == b';'

unfoldable pub word_of : CString → CString
word_of [] = []
word_of (b ∷ s) = elim (ends_word b) [ true ↦ [] | false ↦ b ∷ word_of s ]

unfoldable pub after_word : CString → CString
after_word [] = []
after_word (b ∷ s) = elim (ends_word b) [ true ↦ b ∷ s | false ↦ after_word s ]

-- A word of one byte, or none, is a variable or a digit; a longer one is a number.
unfoldable pub word_value : Option (List Variable) → CString → Outcome ℤ
word_value vars [] = read_data vars 0
word_value vars (b ∷ []) = read_data vars b
word_value vars (b ∷ b' ∷ s) = atoi (b ∷ b' ∷ s)

-- Each round of the outer loop takes the sign at least, so the length bounds the rounds.
unfoldable pub evaluate_terms : ℕ → Option (List Variable) → CString → ℤ → Outcome (ℤ × CString)
unfolding word_of after_word word_value
evaluate_terms fuel vars [] value = ok (value, [])
evaluate_terms zero vars (b ∷ s) value = hang
evaluate_terms (suc fuel) vars (sign ∷ s) value = elim (sign == b';') [
  | true ↦ ok (value, sign ∷ s)
  | false ↦ (do
    operand ← word_value vars (word_of s)
    value' ← (if sign == b'-' then int_sub value operand else int_add value operand)
    evaluate_terms fuel vars (after_word s) value')
]

unfoldable pub evaluate : Option (List Variable) → CString → Outcome (ℤ × CString)
unfolding evaluate_terms
evaluate vars text = evaluate_terms (length text) vars text (pos 0)
