-- ===== src/Machine/Expression/Sum.antt =====
-- An expression as a sum of words with their signs, and its value.
use sisop_2012_2c.Shared.{
  ℕ, zero, suc, ◌≤◌, ◌≡◌, refl, sym, ap, ◌∙◌, Bool, true, false, List, [], ◌∷◌, ◌++◌, Option,
  CString, length, length-append, append_assoc, ◌==◌, if◌then◌else◌, arith,
}
use sisop_2012_2c.Shared.Int.{ℤ, pos}
use sisop_2012_2c.Shared.Outcome.{Outcome, ok, ◌>>=◌, >>=-cong, >>=_assoc}
use sisop_2012_2c.Shared.Number.{int_add, int_sub}
use sisop_2012_2c.Process.{Variable}
use sisop_2012_2c.Machine.Expression.{
  ends_word, word_of, after_word, word_value, evaluate_terms, evaluate,
}

-- A word that is added or taken away.
pub record Term : Type 0 where
  pub minus : Bool
  pub word : CString

abbrev sign : Term → ℕ
sign t = if t.minus then b'-' else b'+'

abbrev pub print_terms : List Term → CString
print_terms [] = []
print_terms (t ∷ terms) = sign t ∷ (t.word ++ print_terms terms)

-- No sign and no ';' is in the word.
abbrev pub IsWord : CString → Type 0
IsWord [] = Unit
IsWord (b ∷ w) = (ends_word b ≡ false) × IsWord w

abbrev pub AllWords : List Term → Type 0
AllWords [] = Unit
AllWords (t ∷ terms) = IsWord t.word × AllWords terms

-- What follows an expression: nothing, or the time of the line.
abbrev pub IsTail : CString → Type 0
IsTail [] = Unit
IsTail (b ∷ s) = (b == b';') ≡ true

abbrev EndsWord : CString → Type 0
EndsWord [] = Unit
EndsWord (b ∷ s) = ends_word b ≡ true

-- The sum, from left to right; an operand or a sum that is no `int` ends it.
pub sum : Option (List Variable) → ℤ → List Term → Outcome ℤ
sum vars value [] = ok value
sum vars value (t ∷ terms) = do
  operand ← word_value vars t.word
  value' ← (if t.minus then int_sub value operand else int_add value operand)
  sum vars value' terms

word_of-append : (w rest : CString) → IsWord w → EndsWord rest → word_of (w ++ rest) ≡ w
unfolding word_of
word_of-append [] [] h e = refl
word_of-append [] (b ∷ rest) h e = rw (e, word_of)
word_of-append (b ∷ w) rest h e = rw (h.0, word_of) (ap (◌∷◌ b) (word_of-append w rest h.1 e))

after_word-append : (w rest : CString) → IsWord w → EndsWord rest → after_word (w ++ rest) ≡ rest
unfolding after_word
after_word-append [] [] h e = refl
after_word-append [] (b ∷ rest) h e = rw (e, after_word)
after_word-append (b ∷ w) rest h e = rw (h.0, after_word) (after_word-append w rest h.1 e)

semicolon-EndsWord : (b : ℕ) → (b == b';') ≡ true → ends_word b ≡ true
semicolon-EndsWord b h = ground arith

terms-EndsWord :
    (terms : List Term) (tail : CString) → IsTail tail → EndsWord (print_terms terms ++ tail)
terms-EndsWord [] [] h = _
terms-EndsWord [] (b ∷ s) h = semicolon-EndsWord b h
terms-EndsWord (t ∷ terms) tail h = ground arith

sign-minus : (m : Bool) → ((if m then b'-' else b'+') == b'-') ≡ m
sign-minus true = refl
sign-minus false = refl

sign_no_semicolon : (m : Bool) → ((if m then b'-' else b'+') == b';') ≡ false
sign_no_semicolon true = refl
sign_no_semicolon false = refl

-- What a sign does.
abbrev apply_sign : Bool → ℤ → ℤ → Outcome ℤ
apply_sign minus value operand = if minus then int_sub value operand else int_add value operand

module _ (vars : Option (List Variable)) where
  -- One round: a sign that is no ';', and a word.
  evaluate_terms-round :
      (fuel b : ℕ) (w rest : CString) (value : ℤ)
      → (b == b';') ≡ false
      → IsWord w
      → EndsWord rest
      → evaluate_terms (suc fuel) vars (b ∷ (w ++ rest)) value ≡ (do
        operand ← word_value vars w
        value' ← (if b == b'-' then int_sub value operand else int_add value operand)
        evaluate_terms fuel vars rest value')
  unfolding evaluate_terms
  evaluate_terms-round fuel b w rest value n h e =
      rw (n, evaluate_terms) (rw (word_of-append w rest h e, after_word-append w rest h e))

  evaluate_terms-sum :
      (terms : List Term) (fuel : ℕ) (value : ℤ) (tail : CString)
      → AllWords terms
      → IsTail tail
      → length (print_terms terms ++ tail) ≤ fuel
      → evaluate_terms fuel vars (print_terms terms ++ tail) value
        ≡ (sum vars value terms >>= λ v. ok (v, tail))
  unfolding sum evaluate_terms
  evaluate_terms-sum [] zero value [] a h k = refl
  evaluate_terms-sum [] (suc fuel) value [] a h k = refl
  evaluate_terms-sum [] zero value (b ∷ s) a h k = absurd (omega arith)
  evaluate_terms-sum [] (suc fuel) value (b ∷ s) a h k = rw (h, evaluate_terms)
  evaluate_terms-sum (t ∷ terms) zero value tail a h k = absurd (omega arith)
  evaluate_terms-sum (t ∷ terms) (suc fuel) value tail a h k =
      ap (λ text. evaluate_terms (suc fuel) vars (sign t ∷ text) value)
        (append_assoc t.word (print_terms terms) tail)
      ∙ evaluate_terms-round fuel (sign t) t.word (print_terms terms ++ tail) value
          (sign_no_semicolon t.minus) a.0 (terms-EndsWord terms tail h)
      ∙ >>=-cong (word_value vars t.word) _ _
          (rest λ v. evaluate_terms-sum terms fuel v tail a.1 h bound)
      ∙ sym (
          >>=_assoc (word_value vars t.word)
            (λ operand. apply_sign t.minus value operand >>= λ v. sum vars v terms)
            (λ v. ok (v, tail)))
    where
      bound : length (print_terms terms ++ tail) ≤ fuel
      bound = omega (
        arith,
        k,
        length-append (t.word ++ print_terms terms) tail,
        length-append t.word (print_terms terms),
        length-append (print_terms terms) tail,
      )

      rest :
          ((v : ℤ)
            → evaluate_terms fuel vars (print_terms terms ++ tail) v
              ≡ (sum vars v terms >>= λ u. ok (u, tail)))
          → (operand : ℤ)
          → (apply_sign (sign t == b'-') value operand >>= λ v.
              evaluate_terms fuel vars (print_terms terms ++ tail) v)
            ≡ ((apply_sign t.minus value operand >>= λ v. sum vars v terms) >>= λ v. ok (v, tail))
      rest others operand =
          ap
            (λ m. apply_sign m value operand >>= λ v.
              evaluate_terms fuel vars (print_terms terms ++ tail) v)
            (sign-minus t.minus)
          ∙ >>=-cong (apply_sign t.minus value operand) _ _ others
          ∙ sym (
              >>=_assoc (apply_sign t.minus value operand) (λ v. sum vars v terms)
                (λ v. ok (v, tail)))

  -- The two loops over "=word", and the words with their signs that follow it, give the sum of the
  -- words from left to right, and leave what comes behind it; they never run out of rounds.
  pub evaluate-sum :
      (word : CString) (terms : List Term) (tail : CString)
      → IsWord word
      → AllWords terms
      → IsTail tail
      → evaluate vars (b'=' ∷ (word ++ (print_terms terms ++ tail)))
        ≡ (sum vars (pos 0) (record { minus = false; word = word } ∷ terms) >>= λ v. ok (v, tail))
  unfolding evaluate sum
  evaluate-sum word terms tail w a h =
      evaluate_terms-round _ b'=' word (print_terms terms ++ tail) (pos 0) refl w
        (terms-EndsWord terms tail h)
      ∙ >>=-cong (word_value vars word) _ _ (λ operand.
        >>=-cong (int_add (pos 0) operand) _ _ (λ v.
          evaluate_terms-sum terms _ v tail a h
            (omega (arith, length-append word (print_terms terms ++ tail))))
        ∙ sym (>>=_assoc (int_add (pos 0) operand) (λ v. sum vars v terms) (λ v. ok (v, tail))))
      ∙ sym (
          >>=_assoc (word_value vars word)
            (λ operand. int_add (pos 0) operand >>= λ v. sum vars v terms) (λ v. ok (v, tail)))
