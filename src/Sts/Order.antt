-- ===== src/Sts/Order.antt =====
-- The two ordering routines of PROCER/PP/src/STS.c, `orderInsertPrioList` and `orderInsertSPNList`,
-- which are one text over two comparisons: LPL is emptied into the list of arrivals, a bubble sort
-- by removal and insertion puts that list in order, and it goes back to LPL.
pub mod Bubble
pub mod Stable
pub mod Loop
pub mod Ready
use sisop_2012_2c.Shared.{
  ℕ, zero, suc, ◌+◌, ◌-◌, ◌*◌, Bool, true, false, List, [], ◌∷◌, Option, none, some, ◌==◌,
  if◌then◌else◌,
}
use sisop_2012_2c.Shared.Outcome.{Outcome, ok, fault, hang, deref, ◌>>=◌}
use sisop_2012_2c.Commons.{
  Collections, list_size, list_add, list_get, list_remove, list_add_in_index, queue_size,
  queue_push, queue_pop,
}
use sisop_2012_2c.Process.{Channel, sem_trywait, sem_post, enqueue}

module _ {A : Type 0} ⦃c : Collections⦄ where
  -- for (i = 0; (i < queueSize) && (result != -1); i++): the round whose sem_trywait fails still
  -- takes an entry out
  pub take_ready : ℕ → Channel A → List A → Outcome (Channel A × List A)
  take_ready zero lpl prio_list = ok (lpl, prio_list)
  take_ready (suc rounds) lpl prio_list = do
    let popped = queue_pop lpl.queue
    ps_img ← deref popped.0
    let prio_list' = list_add_in_index prio_list 0 ps_img
    elim (sem_trywait lpl.empty) [
      | none ↦ ok (record lpl { queue = popped.1 }, prio_list')
      | some n ↦ take_ready rounds (record { queue = popped.1; empty = n }) prio_list'
    ]

  -- for (i = 0; i < listSize; i++) list_remove(prioList, 0) goes to LPL
  pub give_back : ℕ → List A → Channel A → Outcome (Channel A)
  give_back zero prio_list lpl = ok lpl
  give_back (suc rounds) prio_list lpl = do
    let removed = list_remove prio_list 0
    ps_img ← deref removed.0
    give_back rounds removed.1 (enqueue lpl ps_img)

  -- The two ways to move the element at `i` one place on: at the last pair the library's insertion
  -- cannot reach the end, so the code appends.
  pub move_after : ℕ → ℕ → List A → Outcome (List A)
  move_after ilimit i prio_list = do
    let removed = list_remove prio_list i
    ps_img ← deref removed.0
    if ilimit == i + 1
        then ok (list_add removed.1 ps_img)
        else ok (list_add_in_index removed.1 (i + 1) ps_img)

module _ {A : Type 0} ⦃c : Collections⦄ (gt : A → A → Bool) where
  -- for (i = 0; i < ilimit; i++), with the rounds that are left; the Boolean is `flag`
  pub order_pass : ℕ → ℕ → ℕ → List A → Bool → Outcome (List A × Bool)
  order_pass zero i ilimit prio_list flag = ok (prio_list, flag)
  order_pass (suc rounds) i ilimit prio_list flag = do
    ps_img1 ← deref (list_get prio_list i)
    ps_img2 ← deref (list_get prio_list (i + 1))
    elim (gt ps_img1 ps_img2) [
      | true ↦ (do
        moved ← move_after ilimit i prio_list
        order_pass rounds (i + 1) ilimit moved false)
      | false ↦ order_pass rounds (i + 1) ilimit prio_list flag
    ]

  -- while (!flag), on fuel. `listSize - 1` is -1 for the empty list and 0 here: no round either way.
  pub order_loop : ℕ → List A → Outcome (List A)
  order_loop zero prio_list = hang
  order_loop (suc fuel) prio_list = do
    let ilimit = list_size prio_list - 1
    passed ← order_pass ilimit 0 ilimit prio_list true
    elim passed.1 [ true ↦ ok passed.0 | false ↦ order_loop fuel passed.0 ]

  -- Each pass of the loop but the last takes one inversion away at least.
  pub order_list : List A → Outcome (List A)
  order_list prio_list = order_loop (suc (list_size prio_list * list_size prio_list)) prio_list

  pub order_insert : List A → Channel A → Outcome (Channel A)
  order_insert prio_list lpl = do
    taken ← take_ready (queue_size lpl.queue) lpl prio_list
    ordered ← order_list taken.1
    give_back (list_size ordered) ordered taken.0
