-- ===== src/Wire/Reading.antt =====
-- One whole message at the front of what has arrived is received as it was sent, and what follows it
-- stays for the next read.
use sisop_2012_2c.Shared.{
  ℕ, ◌+◌, ◌*◌, ◌≤◌, ◌≡◌, refl, List, [], ◌∷◌, ◌++◌, some, none, arith, length, length-append,
  append-nil, take-append_length, drop-append_length, le→leb, ne→==,
}
use sisop_2012_2c.Shared.Outcome.{Outcome, ok}
use sisop_2012_2c.Wire.{copy_out, receive, read_with, read_stream}

pub copy_out-append :
    (pre mid rest : List ℕ) (offset n : ℕ)
    → offset ≡ length pre
    → n ≡ length mid
    → copy_out (pre ++ (mid ++ rest)) offset n ≡ ok mid
copy_out-append pre mid rest offset n e h =
    rw (le→leb (offset + n) (length (pre ++ (mid ++ rest))) fits)
      (rw (e, h, drop-append_length pre (mid ++ rest), take-append_length mid rest))
  where
    fits : offset + n ≤ length (pre ++ (mid ++ rest))
    fits = omega (arith, length-append pre (mid ++ rest), length-append mid rest)

pub copy_out-append_end :
    (pre mid : List ℕ) (offset n : ℕ)
    → offset ≡ length pre
    → n ≡ length mid
    → copy_out (pre ++ mid) offset n ≡ ok mid
copy_out-append_end pre mid offset n e h =
    rw (append-nil mid) at (copy_out-append pre mid [] offset n e h)

abbrev pub frame : ℕ → ℕ → ℕ → List ℕ → List ℕ
frame type lo hi body = type ∷ lo ∷ hi ∷ body

module _ (type lo hi : ℕ) (body rest : List ℕ)
    (counts : lo + 256 * hi ≡ length (frame type lo hi body)) where
  receive-append : receive (frame type lo hi body ++ rest) ≡ ok (some (frame type lo hi body), rest)
  unfolding receive
  receive-append =
      rw (copy_out-append [] (frame type lo hi body) rest 0 (lo + 256 * hi) refl counts, receive)
        (rw (ne→== (lo + 256 * hi) 0 (λ e. omega arith))
          (rw (counts, drop-append_length (frame type lo hi body) rest)))

  pub read_with-append :
      {A : Type 0} (deserialize : List ℕ → Outcome A) (a : A)
      → deserialize (frame type lo hi body) ≡ ok a
      → read_with deserialize (some (frame type lo hi body ++ rest)) ≡ ok (some a, some rest)
  unfolding read_with
  read_with-append deserialize a e = rw (receive-append, read_with) (rw (e, read_with))

pub read_stream-nothing : read_stream (some []) ≡ ok (none, some [])
unfolding read_stream read_with receive
read_stream-nothing = refl
