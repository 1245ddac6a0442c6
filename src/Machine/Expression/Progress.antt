-- ===== src/Machine/Expression/Progress.antt =====
-- The loops over the right side of an assignment come to an end.
use sisop_2012_2c.Shared.{
  ℕ, zero, suc, ◌≤◌, ◌||◌, List, [], ◌∷◌, Option, CString, length, ◌==◌, Bool-cases, inl, inr,
  if◌then◌else◌, arith,
}
use sisop_2012_2c.Shared.Int.{ℤ, pos}
use sisop_2012_2c.Shared.Outcome.{Any, Settles, Settles-ok, Settles-if, Settles-elim, Settles->>=}
use sisop_2012_2c.Shared.Number.{int_add, int_sub, atoi-Settles, int_add-Settles, int_sub-Settles}
use sisop_2012_2c.Process.{Variable}
use sisop_2012_2c.Memory.Progress.{IsSized, read_data-Settles}
use sisop_2012_2c.Machine.Expression.{word_of, after_word, word_value, evaluate_terms, evaluate}

word_value-Settles :
    (vars : Option (List Variable)) (word : CString)
    → IsSized vars
    → Settles Any (word_value vars word)
unfolding word_value
word_value-Settles vars [] h = read_data-Settles vars 0 h
word_value-Settles vars (b ∷ []) h = read_data-Settles vars b h
word_value-Settles vars (b ∷ b' ∷ s) h = atoi-Settles (b ∷ b' ∷ s)

length-after_word : (s : CString) → length (after_word s) ≤ length s
unfolding after_word
length-after_word [] = omega arith
length-after_word (b ∷ s) = elim (Bool-cases (b == b'+' || b == b'-' || b == b';')) [
  | inl end ↦ rw (end, after_word) (omega arith)
  | inr inside ↦ rw (inside, after_word) (omega (arith, length-after_word s))
]

evaluate_terms-Settles :
    (fuel : ℕ) (vars : Option (List Variable)) (text : CString) (value : ℤ)
    → IsSized vars
    → length text ≤ fuel
    → Settles Any (evaluate_terms fuel vars text value)
unfolding evaluate_terms
evaluate_terms-Settles fuel vars [] value h k = Settles-ok _ _
evaluate_terms-Settles zero vars (b ∷ s) value h k = absurd (omega (arith, k))
evaluate_terms-Settles (suc fuel) vars (sign ∷ s) value h k =
    Settles-elim (sign == b';') (λ end. Settles-ok _ _)
      (λ e.
        Settles->>= Any (word_value vars (word_of s)) (word_value-Settles vars (word_of s) h)
          λ operand f u.
            Settles->>= Any (if sign == b'-' then int_sub value operand else int_add value operand)
              (Settles-if (sign == b'-') (λ g. int_sub-Settles value operand)
                (λ g. int_add-Settles value operand))
              λ value' g v.
                evaluate_terms-Settles fuel vars (after_word s) value' h
                  (omega (arith, k, length-after_word s)))

pub evaluate-Settles :
    (vars : Option (List Variable)) (text : CString)
    → IsSized vars
    → Settles Any (evaluate vars text)
unfolding evaluate
evaluate-Settles vars text h =
    evaluate_terms-Settles (length text) vars text (pos 0) h (omega arith)
