-- ===== src/Lts/Search.antt =====
-- The search for a client in a list, which `restoreSuspended` and `list_fd_msg_get` share.
use sisop_2012_2c.Shared.{
  ℕ, ◌+◌, ◌≡◌, ◌≢◌, refl, ap, ◌∙◌, eq→==, ne→==, false, List, [], ◌∷◌, ◌++◌, Option, none, some,
  arith, length, length-append, append_assoc, ◌==◌, if◌then◌else◌, Bool-cases, inl, inr,
}
use sisop_2012_2c.Shared.Outcome.{Outcome, ok, fault, deref, ◌>>=◌}
use sisop_2012_2c.Commons.{Collections, list_remove}
use sisop_2012_2c.Commons.Positions.{list_get-append, list_remove-append}
use sisop_2012_2c.Lts.{find_fd, remove_fd}

module _ {A : Type 0} (fd_of : A → ℕ) (clientfd : ℕ) where
  -- The first element of the client, and the list without it.
  unfoldable pub remove_first : List A → Option A × List A
  remove_first [] = (none, [])
  remove_first (x ∷ l) =
      if fd_of x == clientfd then (some x, l) else ((remove_first l).0, x ∷ (remove_first l).1)

module _ {A : Type 0} ⦃c : Collections⦄ (fd_of : A → ℕ) (clientfd : ℕ) where
  -- What the code does with the result of the loop.
  abbrev finish : List A → Option A × ℕ → Outcome (Option A × List A)
  finish list (last, i) = do
    element ← deref last
    if fd_of element == clientfd then ok (list_remove list i) else ok (none, list)

  find_fd-remove_first :
      (l pre : List A) (z : A) (i : ℕ)
      → (fd_of z == clientfd) ≡ false
      → i ≡ length pre
      → (find_fd fd_of (length l) i (pre ++ l) clientfd (some z) >>= finish (pre ++ l))
        ≡ ok ((remove_first fd_of clientfd l).0, pre ++ (remove_first fd_of clientfd l).1)
  unfolding find_fd remove_first
  find_fd-remove_first [] pre z i miss e = rw (find_fd, miss, remove_first)
  find_fd-remove_first (y ∷ l) pre z i miss e = elim (Bool-cases (fd_of y == clientfd)) [
    | inl hit ↦
        rw (find_fd, list_get-append pre y l i e)
          (rw (hit, remove_first, ◌>>=◌) (rw (hit, list_remove-append pre y l i e)))
    | inr other ↦
        rw (find_fd, list_get-append pre y l i e)
          (rw (other, remove_first, ◌>>=◌)
            (rw
              (
                ← append_assoc pre (y ∷ []) l,
                ← append_assoc pre (y ∷ []) (remove_first fd_of clientfd l).1,
              )
              (find_fd-remove_first l (pre ++ y ∷ []) y (i + 1) other
                (omega (arith, length-append pre (y ∷ []))))))
  ]

  -- On a list that is not empty the search removes the first element of the client, or gives NULL and
  -- leaves the list as it is; on the empty list it reads through a pointer that nothing has set.
  pub remove_fd-remove_first :
      (x : A) (l : List A)
      → (remove_fd fd_of (x ∷ l) clientfd ≡ ok (remove_first fd_of clientfd (x ∷ l)))
        × (remove_fd fd_of [] clientfd ≡ fault)
  unfolding remove_fd remove_first
  remove_fd-remove_first x l = (
    elim (Bool-cases (fd_of x == clientfd)) [
      | inl hit ↦
          rw (c.size_law (x ∷ l), find_fd, list_get-append [] x l 0 refl)
            (rw (hit, ◌>>=◌) (rw (hit, list_remove-append [] x l 0 refl)))
      | inr other ↦
          rw (c.size_law (x ∷ l), find_fd, list_get-append [] x l 0 refl)
            (rw (other, ◌>>=◌) (find_fd-remove_first l (x ∷ []) x 1 other refl))
    ],
    rw (c.size_law {A = A} [], find_fd),
  )

-- No element is of the client.
abbrev pub Others : {A : Type 0} → (A → ℕ) → ℕ → List A → Type 0
Others fd_of fd [] = Unit
Others fd_of fd (x ∷ l) = (fd_of x ≢ fd) × Others fd_of fd l

remove_first-append :
    {A : Type 0} (fd_of : A → ℕ) (before : List A) (x : A) (after : List A)
    → Others fd_of (fd_of x) before
    → remove_first fd_of (fd_of x) (before ++ x ∷ after) ≡ (some x, before ++ after)
unfolding remove_first
remove_first-append fd_of [] x after h = rw (eq→== (fd_of x) (fd_of x) refl) refl
remove_first-append fd_of (y ∷ before) x after (other, h) =
    rw (ne→== (fd_of y) (fd_of x) other) (rw (remove_first-append fd_of before x after h) refl)

pub remove_fd-append :
    {A : Type 0} ⦃c : Collections⦄ (fd_of : A → ℕ) (before : List A) (x : A) (after : List A)
    → Others fd_of (fd_of x) before
    → remove_fd fd_of (before ++ x ∷ after) (fd_of x) ≡ ok (some x, before ++ after)
remove_fd-append fd_of [] x after h =
    (remove_fd-remove_first fd_of (fd_of x) x after).0
    ∙ ap ok (remove_first-append fd_of [] x after h)
remove_fd-append fd_of (y ∷ before) x after h =
    (remove_fd-remove_first fd_of (fd_of x) y (before ++ x ∷ after)).0
    ∙ ap ok (remove_first-append fd_of (y ∷ before) x after h)
