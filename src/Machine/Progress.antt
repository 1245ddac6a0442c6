-- ===== src/Machine/Progress.antt =====
-- The loops over the text of a line come to an end.
use sisop_2012_2c.Shared.{ℕ, [], ◌∷◌, CString, length, get_elem?, ltb, ◌==◌, Bool-cases, inl, inr}
use sisop_2012_2c.Shared.Outcome.{
  Any, Settles, Settles-ok, Settles-fault, Settles-if, Settles->>=, deref-Settles,
}
use sisop_2012_2c.Shared.Number.{atoi, atoi-Settles}
use sisop_2012_2c.Machine.{char_at, split_comma, io_arguments}

pub char_at-Settles : (text : CString) (i : ℕ) → Settles Any (char_at text i)
char_at-Settles text i =
    Settles-if (ltb i (length text)) (λ e. deref-Settles (get_elem? text i))
      (λ e. Settles-if (i == length text) (λ f. Settles-ok _ _) (λ f. Settles-fault))

split_comma-Settles : (text : CString) → Settles Any (split_comma text)
unfolding split_comma
split_comma-Settles [] = Settles-fault
split_comma-Settles (b ∷ s) = elim (Bool-cases (b == b',')) [
  | inl hit ↦
      rw (hit, split_comma)
        (Settles->>= Any (char_at s 0) (char_at-Settles s 0) λ next e u. Settles-ok _ _)
  | inr miss ↦
      rw (miss, split_comma)
        (Settles->>= Any (split_comma s) (split_comma-Settles s) λ split f u. Settles-ok _ _)
]

pub io_arguments-Settles : (text : CString) → Settles Any (io_arguments text)
unfolding io_arguments
io_arguments-Settles text =
    Settles->>= Any (split_comma text) (split_comma-Settles text)
      λ split e u. Settles->>= Any (atoi split.0) (atoi-Settles split.0) λ time f v. Settles-ok _ _
