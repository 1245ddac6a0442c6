-- ===== src/Lts/Delay.antt =====
-- The processes that MMP delays, from LFIFO to LPN.
use sisop_2012_2c.Shared.{
  ℕ, zero, suc, ◌+◌, ◌≡◌, ap, ◌∙◌, sym, false, List, [], ◌∷◌, ◌++◌, append-nil, append_assoc,
  length, arith,
}
use sisop_2012_2c.Shared.Outcome.{Outcome, ok, ◌>>=◌, >>=_assoc}
use sisop_2012_2c.Commons.{Collections}
use sisop_2012_2c.Process.{ProcessImage, enqueue, counted}
use sisop_2012_2c.System.{System}
use sisop_2012_2c.Lts.{lts_new_take, lts_new_admit}

module _ {D : Type 0} ⦃c : Collections⦄ where
  -- So many rounds of LTSnew, each with its two waits.
  abbrev pub rounds : ℕ → System D → Outcome (System D)
  rounds zero s = ok s
  rounds (suc n) s = do s' ← lts_new_take s; s'' ← lts_new_admit s'; rounds n s''

  -- LTSnew is at the start of a round, these processes are delayed, and so many places are left of MMP.
  abbrev pub delaying : List (ProcessImage D) → ℕ → System D → System D
  delaying l mmp s = record s { lfifo = counted l; mmp_sem = mmp; lts_new_waits = false }

  -- These have come to LPN, and STS is told of each.
  abbrev pub admitted : List (ProcessImage D) → System D → System D
  admitted l s = record s {
    lpn = record { queue = s.lpn.queue ++ l; empty = s.lpn.empty + length l };
    sts_in_empty = s.sts_in_empty + length l;
  }

  one_round :
      (s : System D) (x : ProcessImage D) (l : List (ProcessImage D)) (mmp : ℕ)
      → (do s' ← lts_new_take (delaying (x ∷ l) (suc mmp) s); lts_new_admit s')
        ≡ ok (delaying l mmp (admitted (x ∷ []) s))
  unfolding lts_new_take lts_new_admit enqueue
  one_round s x l mmp = rw (c.pop_law x l) (
      rw c.push_law (λ i. ok (record (delaying l mmp s) {
        lpn = record { queue = s.lpn.queue ++ x ∷ []; empty = more s.lpn.empty i };
        sts_in_empty = more s.sts_in_empty i;
      })))
    where
      more : (n : ℕ) → suc n ≡ n + 1
      more n = omega arith

  admitted-nil : (s : System D) → s ≡ admitted [] s
  admitted-nil s = λ i. record s {
    lpn = record { queue = sym (append-nil s.lpn.queue) i; empty = none_more s.lpn.empty i };
    sts_in_empty = none_more s.sts_in_empty i;
  }
    where
      none_more : (n : ℕ) → n ≡ n + 0
      none_more n = omega arith

  admitted-admitted :
      (s : System D) (x : ProcessImage D) (l : List (ProcessImage D))
      → admitted l (admitted (x ∷ []) s) ≡ admitted (x ∷ l) s
  admitted-admitted s x l = λ i. record s {
    lpn = record { queue = append_assoc s.lpn.queue (x ∷ []) l i; empty = together s.lpn.empty i };
    sts_in_empty = together s.sts_in_empty i;
  }
    where
      together : (n : ℕ) → n + 1 + length l ≡ n + length (x ∷ l)
      together n = omega arith

  -- Where MMP has places for them, so many rounds of LTSnew, with no other step between, take the first
  -- of the delayed processes to LPN, behind those that are there and in the order in which they were
  -- delayed, each with a place of MMP, and STS is told of each; the others are delayed still.
  pub rounds-admitted :
      (s : System D) (first rest : List (ProcessImage D)) (mmp : ℕ)
      → rounds (length first) (delaying (first ++ rest) (length first + mmp) s)
        ≡ ok (delaying rest mmp (admitted first s))
  rounds-admitted s [] rest mmp = λ i. ok (delaying rest (none_before i) (admitted-nil s i))
    where
      none_before : 0 + mmp ≡ mmp
      none_before = omega arith
  rounds-admitted s (x ∷ first) rest mmp =
      ap (λ k. rounds (suc (length first)) (delaying (x ∷ (first ++ rest)) k s)) one_more
      ∙ sym (
          >>=_assoc (lts_new_take (delaying (x ∷ (first ++ rest)) (suc (length first + mmp)) s))
            lts_new_admit (rounds (length first)))
      ∙ ap (λ o. o >>= rounds (length first)) (one_round s x (first ++ rest) (length first + mmp))
      ∙ rounds-admitted (admitted (x ∷ []) s) first rest mmp
      ∙ ap (λ t. ok (delaying rest mmp t)) (admitted-admitted s x first)
    where
      one_more : suc (length first) + mmp ≡ suc (length first + mmp)
      one_more = omega arith
