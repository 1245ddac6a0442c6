-- ===== src/Io/Pool.antt =====
-- The I/O threads that are free and the requests that are served are as many as there are threads.
use sisop_2012_2c.Shared.{
  ℕ, zero, suc, ◌+◌, ◌≡◌, refl, ap, true, List, [], ◌∷◌, some, get_elem?, erase_idx, length, arith,
}
use sisop_2012_2c.Shared.Outcome.{
  Outcome, ok, deref, deref-eq-ok, sem_wait, Holds, Holds-ok, Holds-if, Holds-after,
}
use sisop_2012_2c.Shared.Int.{to_u32}
use sisop_2012_2c.Commons.{Collections, queue_pop}
use sisop_2012_2c.System.{System}
use sisop_2012_2c.Io.{io_take, io_finish}

-- A semaphore that was taken was one more.
sem_wait-taken : (n k : ℕ) → sem_wait n ≡ ok k → n ≡ suc k
sem_wait-taken zero k e = cc
sem_wait-taken (suc n) k e = ap left e
  where
    left : Outcome ℕ → ℕ
    left (ok m) = suc m
    left _ = 0

length-erase_idx :
    {A : Type 0} (l : List A) (i : ℕ) (x : A)
    → get_elem? l i ≡ some x
    → suc (length (erase_idx l i)) ≡ length l
length-erase_idx [] i x e = cc
length-erase_idx (y ∷ l) zero x e = refl
length-erase_idx (y ∷ l) (suc i) x e = ap suc (length-erase_idx l i x e)

module _ {D : Type 0} where
  -- The configuration has been read, and the threads are as many as it said.
  abbrev pub IsPool : System D → Type 0
  IsPool s =
      (s.settings.flag_ready ≡ true)
      × (s.io_threads + length s.serving ≡ to_u32 s.settings.io_thread_count)

module _ {D : Type 0} ⦃c : Collections⦄ (s : System D) where
  pub io_take-IsPool : IsPool s → Holds IsPool (io_take s)
  unfolding io_take
  io_take-IsPool (ready, h) = Holds-after (sem_wait s.lpb.empty) λ requests e.
      Holds-after (sem_wait s.io_threads) λ free f.
        Holds-after (deref (queue_pop s.lpb.queue).0)
          λ io g. Holds-ok _ (ready, omega (arith, h, sem_wait-taken s.io_threads free f))

  pub io_finish-IsPool : (i : ℕ) → IsPool s → Holds IsPool (io_finish i s)
  unfolding io_finish
  io_finish-IsPool i (ready, h) = Holds-after (deref (get_elem? s.serving i)) λ io e.
      let left = length-erase_idx s.serving i io (deref-eq-ok (get_elem? s.serving i) e) in
      Holds-if io.flag_non_blocking (λ at_once. Holds-ok _ (ready, omega (arith, h, left)))
        (λ blocked. Holds-ok _ (ready, omega (arith, h, left)))
