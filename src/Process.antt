-- ===== src/Process.antt =====
-- The records that the threads of the PP process share: PROCER/PP/src/procer_defs.h, LTS.h and io.h,
-- the queues with their semaphores as main.c creates them, and the operations on POSIX semaphores.
-- `double` is the parameter `D`.
use sisop_2012_2c.Shared.{
  ℕ, ap, ◌∙◌, ◌⊎◌, inl, inr, List-cases, zero, suc, ◌≡◌, Bool, List, [], ◌∷◌, ◌++◌, Option, none,
  some, CString, length, length-append, arith,
}
use sisop_2012_2c.Shared.Int.{ℤ}
use sisop_2012_2c.Shared.Outcome.{ok, waits, sem_wait}
use sisop_2012_2c.Commons.{Collections, queue_push, queue_pop}

-- t_data: one variable of the data segment
pub record Variable : Type 0 where
  pub var_name : ℕ
  pub var_value : ℤ

-- t_stack: one call that is not finished
pub record Frame : Type 0 where
  pub function_name : CString
  pub pc : ℕ
  pub linecall : ℕ

-- t_ProcessImage; a `vars` of `none` is the NULL of a process that has declared nothing
pub record ProcessImage (D : Type 0) : Type 0 where
  pub clientfd : ℕ
  pub pid : ℕ
  pub priority : ℤ
  pub pc : ℕ
  pub code : CString
  pub vars : Option (List Variable)
  pub stack : List Frame
  pub tspn : D

-- t_msg
pub record Msg : Type 0 where
  pub fd : ℕ
  pub type : ℕ
  pub msg : CString

-- t_ioInfo and t_ioProcessing
pub record IoProcessing (D : Type 0) : Type 0 where
  pub process_image : ProcessImage D
  pub io_time : ℕ
  pub flag_non_blocking : Bool

-- A queue and the semaphore that counts its entries, such as LPN and LPN_empty.
pub record Channel (A : Type 0) : Type 0 where
  pub queue : List A
  pub empty : ℕ

-- The semaphore agrees with the queue.
abbrev pub IsCounted : {A : Type 0} → Channel A → Type 0
IsCounted ch = ch.empty ≡ length ch.queue

-- `sem_trywait`; `none` is the result -1, and the semaphore stays as it is
abbrev pub sem_trywait : ℕ → Option ℕ
sem_trywait zero = none
sem_trywait (suc n) = some n

-- The value that a `sem_trywait` whose result is not read leaves.
abbrev pub sem_after_trywait : ℕ → ℕ
sem_after_trywait zero = zero
sem_after_trywait (suc n) = n

abbrev pub sem_post : ℕ → ℕ
sem_post n = suc n

-- `queue_push` and the `sem_post` of the same queue, which the code always makes together
unfoldable pub enqueue : {A : Type 0} ⦃c : Collections⦄ → Channel A → A → Channel A
enqueue ch x = record { queue = queue_push ch.queue x; empty = sem_post ch.empty }

-- A queue with its count.
abbrev pub counted : {A : Type 0} → List A → Channel A
counted l = record { queue = l; empty = length l }

pub counted_of_IsCounted : {A : Type 0} (ch : Channel A) → IsCounted ch → ch ≡ counted ch.queue
counted_of_IsCounted ch h = λ i. record { queue = ch.queue; empty = h i }

pub enqueue-counted :
    {A : Type 0} ⦃c : Collections⦄ (l : List A) (x : A)
    → enqueue (counted l) x ≡ counted (l ++ x ∷ [])
unfolding enqueue
enqueue-counted ⦃c⦄ l x = rw c.push_law (λ i. record { queue = l ++ x ∷ []; empty = count i })
  where
    count : suc (length l) ≡ length (l ++ x ∷ [])
    count = omega (arith, length-append l (x ∷ []))

pub enqueue-IsCounted :
    {A : Type 0} ⦃c : Collections⦄ (ch : Channel A) (x : A)
    → IsCounted ch
    → IsCounted (enqueue ch x)
unfolding enqueue
enqueue-IsCounted ⦃c⦄ ch x h = rw c.push_law (omega (arith, length-append ch.queue (x ∷ [])))

pub length-enqueue :
    {A : Type 0} ⦃c : Collections⦄ (ch : Channel A) (x : A)
    → length (enqueue ch x).queue ≡ suc (length ch.queue)
unfolding enqueue
length-enqueue ⦃c⦄ ch x = rw c.push_law (omega (arith, length-append ch.queue (x ∷ [])))

-- A semaphore that counts its queue: to wait for it is to find the queue empty or to pop an element.
pub pop-cases :
    {A : Type 0} ⦃c : Collections⦄ (ch : Channel A)
    → IsCounted ch
    → (sem_wait ch.empty ≡ waits)
      ⊎ ((x : A) × (rest : List A) × (ch.queue ≡ x ∷ rest)
          × (queue_pop ch.queue ≡ (some x, rest))
          × (sem_wait ch.empty ≡ ok (length rest)))
pop-cases ⦃c⦄ ch h = elim (List-cases ch.queue) [
  | inl blank ↦ inl (ap sem_wait (h ∙ ap length blank))
  | inr (x, rest, e) ↦
      inr (x, rest, e, ap queue_pop e ∙ c.pop_law x rest, ap sem_wait (h ∙ ap length e))
]
