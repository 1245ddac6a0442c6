-- ===== src/Script/Lines.antt =====
-- The code segment against its description: the script split at each newline, each line cut at '#'
-- and trimmed. A '#' in the last line makes the code read past the end of the script.
use native.Mathlib.Nat.{zero-add}
use sisop_2012_2c.Shared.{
  ℕ, zero, suc, ◌+◌, ◌≤◌, ◌<◌, ◌≡◌, refl, ap, ◌∙◌, Bool, true, false, List, [], ◌∷◌, Option, none,
  some, CString, arith, length, take, drop, ◌==◌, if◌then◌else◌, Bool-cases, Option-cases, inl, inr,
  map, lt→leb,
}
use sisop_2012_2c.Shared.Outcome.{Outcome, ok, fault, ◌>>=◌}
use sisop_2012_2c.Commons.{Strings, string_trim}
use sisop_2012_2c.Script.{
  advance, line_length, strlen_cs, create_lines, code_segment_creator, u16_last,
}

-- The text before the first newline, and the text behind it.
first_line : CString → CString
first_line [] = []
first_line (b ∷ s) = if b == 10 then [] else b ∷ first_line s

rest_lines : CString → Option CString
rest_lines [] = none
rest_lines (b ∷ s) = if b == 10 then some s else rest_lines s

abbrev prepend : ℕ → List CString → List CString
prepend b [] = (b ∷ []) ∷ []
prepend b (l ∷ ls) = (b ∷ l) ∷ ls

pub split_lines : CString → List CString
split_lines [] = [] ∷ []
split_lines (b ∷ s) = if b == 10 then [] ∷ split_lines s else prepend b (split_lines s)

pub cut_comment : CString → CString
cut_comment [] = []
cut_comment (b ∷ s) = if b == b'#' then [] else b ∷ cut_comment s

abbrev pub has_comment : CString → Bool
has_comment [] = false
has_comment (b ∷ s) = if b == b'#' then true else has_comment s

-- Whether the last line has a '#'.
pub comment_at_end : List CString → Bool
comment_at_end [] = false
comment_at_end (l ∷ []) = has_comment l
comment_at_end (l ∷ m ∷ ls) = comment_at_end (m ∷ ls)

split_lines-first :
    (s : CString)
    → split_lines s
      ≡ first_line s
        ∷ elim (rest_lines s) as (λ _. List CString) [ none ↦ [] | some t ↦ split_lines t ]
unfolding split_lines first_line rest_lines
split_lines-first [] = refl
split_lines-first (b ∷ s) = elim (Bool-cases (b == 10)) [
  | inl e ↦ rw (e, split_lines, first_line, rest_lines)
  | inr e ↦ rw (e, split_lines, first_line, rest_lines) (rw (split_lines-first s))
]

line_length-lem :
    (i : ℕ) (s : CString)
    → i + length s ≤ u16_last
    → line_length i s ≡ ok (i + length (cut_comment (first_line s)))
unfolding line_length cut_comment first_line
line_length-lem i [] h = ground arith
line_length-lem i (b ∷ s) h = ground (arith, line_length-lem (i + 1) s)

take-first_line :
    (s : CString) → take (length (cut_comment (first_line s))) s ≡ cut_comment (first_line s)
unfolding cut_comment first_line
take-first_line [] = refl
take-first_line (b ∷ s) = ground (arith, take-first_line s)

drop-first_line :
    (s : CString)
    → has_comment (first_line s) ≡ false
    → drop (length (cut_comment (first_line s))) s
      ≡ elim (rest_lines s) as (λ _. CString) [ none ↦ [] | some t ↦ 10 ∷ t ]
unfolding cut_comment first_line rest_lines
drop-first_line [] h = refl
drop-first_line (b ∷ s) h = ground (arith, drop-first_line s)

-- What stands behind the first '#'.
behind_comment : CString → CString
behind_comment [] = []
behind_comment (b ∷ s) = if b == b'#' then s else behind_comment s

drop-first_line_comment :
    (s : CString)
    → has_comment (first_line s) ≡ true
    → drop (length (cut_comment (first_line s))) s ≡ b'#' ∷ behind_comment s
unfolding cut_comment first_line behind_comment
drop-first_line_comment [] h = cc
drop-first_line_comment (b ∷ s) h = ground (arith, drop-first_line_comment s)

strlen_cs-lem : (s : CString) → strlen_cs s ≡ length (first_line s)
unfolding strlen_cs first_line
strlen_cs-lem [] = refl
strlen_cs-lem (b ∷ s) = ground (arith, strlen_cs-lem s)

-- What is left behind the first line and its newline, or the fault of a step past the end.
advance-rest_lines :
    (s : CString)
    → advance (strlen_cs s + 1) s
      ≡ elim (rest_lines s) as (λ _. Outcome CString) [ none ↦ fault | some t ↦ ok t ]
unfolding strlen_cs rest_lines
advance-rest_lines [] = ground arith
advance-rest_lines (b ∷ s) = ground (arith, advance-rest_lines s)

length-rest_lines : (s t : CString) → rest_lines s ≡ some t → length t < length s
unfolding rest_lines
length-rest_lines [] t h = cc
length-rest_lines (b ∷ s) t h = ground (arith, length-rest_lines s t)

length-first_line : (s : CString) → length (cut_comment (first_line s)) ≤ length s
unfolding first_line cut_comment
length-first_line [] = omega arith
length-first_line (b ∷ s) = ground (arith, length-first_line s)

comment_at_end-cons :
    (l s : CString) → comment_at_end (l ∷ split_lines s) ≡ comment_at_end (split_lines s)
unfolding comment_at_end
comment_at_end-cons l s = rw (split_lines-first s)

module _ ⦃str : Strings⦄ where
  abbrev pub clean_line : CString → CString
  clean_line l = string_trim (cut_comment l)

  module _ (fuel n : ℕ) (s : CString) (small : n + length s + 1 < u16_last) where
    line_length-first_line : line_length 0 s ≡ ok (length (cut_comment (first_line s)))
    line_length-first_line = line_length-lem 0 s (omega arith) ∙ ap ok (zero-add _)

    create_lines-last :
        drop (length (cut_comment (first_line s))) s ≡ []
        → create_lines (suc fuel) n s ≡ ok (clean_line (first_line s) ∷ [])
    unfolding create_lines
    create_lines-last e =
        rw (line_length-first_line, create_lines)
          (rw (lt→leb u16_last (n + 1) (omega arith), e) (rw take-first_line))

    create_lines-more :
        (b : ℕ) (more : CString)
        → drop (length (cut_comment (first_line s))) s ≡ b ∷ more
        → create_lines (suc fuel) n s ≡ (
            advance (strlen_cs s + 1) s >>= λ next.
            create_lines fuel (n + 1) next >>= λ rest. ok (clean_line (first_line s) ∷ rest))
    unfolding create_lines
    create_lines-more b more e =
        rw (line_length-first_line, create_lines)
          (rw (lt→leb u16_last (n + 1) (omega arith), e) (rw take-first_line))

  -- A first line with more behind it, where the rest has the result of the lemma below.
  create_lines-rest :
      (fuel n : ℕ) (s t : CString) (b : ℕ) (more : CString)
      → n + length s + 1 < u16_last
      → rest_lines s ≡ some t
      → drop (length (cut_comment (first_line s))) s ≡ b ∷ more
      → create_lines fuel (n + 1) t
        ≡ (if comment_at_end (split_lines t) then fault else ok (map clean_line (split_lines t)))
      → create_lines (suc fuel) n s
        ≡ (if comment_at_end (split_lines s) then fault else ok (map clean_line (split_lines s)))
  create_lines-rest fuel n s t b more k e d ih =
      rw (create_lines-more fuel n s k b more d, advance-rest_lines s, split_lines-first s, e)
        (rw (ih, comment_at_end-cons (first_line s) t)
          (elim (Bool-cases (comment_at_end (split_lines t))) [ inl q ↦ rw q | inr q ↦ rw q ]))

  create_lines-split :
      (fuel n : ℕ) (s : CString)
      → length s < fuel
      → n + length s + 1 < u16_last
      → create_lines fuel n s
        ≡ (if comment_at_end (split_lines s) then fault else ok (map clean_line (split_lines s)))
  unfolding comment_at_end
  create_lines-split zero n s h k = absurd (omega arith)
  create_lines-split (suc fuel) n s h k = elim (Option-cases (rest_lines s)) [
    | inl e ↦ elim (Bool-cases (has_comment (first_line s))) [
      | inl hash ↦ rw (
        split_lines-first s,
        e,
        hash,
        create_lines-more fuel n s k b'#' (behind_comment s) (drop-first_line_comment s hash),
        advance-rest_lines s,
        e,
      )
      | inr clean ↦
          rw (split_lines-first s, e, clean)
            (create_lines-last fuel n s k (drop-first_line s clean ∙ rw e))
    ]
    | inr (t, e) ↦
        let rest =
          create_lines-split fuel (n + 1) t (omega (arith, length-rest_lines s t e))
            (omega (arith, length-rest_lines s t e)) in
        elim (Bool-cases (has_comment (first_line s))) [
          | inl hash ↦
              create_lines-rest fuel n s t b'#' (behind_comment s) k e
                (drop-first_line_comment s hash) rest
          | inr clean ↦ create_lines-rest fuel n s t 10 t k e (drop-first_line s clean ∙ rw e) rest
        ]
  ]

  -- A script of fewer than 65534 bytes gives the lines that a split at the newlines gives, each cut
  -- at '#' and trimmed, where the last line has no '#'; where it has one, the code reads past the end
  -- of the script.
  pub code_segment_creator-split :
      (script : CString)
      → length script + 1 < u16_last
      → code_segment_creator script ≡ (
          if comment_at_end (split_lines script)
          then fault
          else ok (map clean_line (split_lines script)))
  unfolding code_segment_creator
  code_segment_creator-split script h =
      create_lines-split (suc (length script)) 0 script (omega arith) (omega arith)
