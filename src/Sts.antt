-- ===== src/Sts.antt =====
-- The short term scheduler, PROCER/PP/src/STS.c: one pass moves the processes of the four incoming
-- queues, in the order of the queues array, to the ready queue LPL. Logging is left out; the read of
-- `processImg->pid` for it is the dereference of what was popped.
pub mod Order
pub mod Queues
pub mod Drain
pub mod Pass
pub mod Accounting
pub mod Conservation
pub mod Preserve
pub mod Ready
use sisop_2012_2c.Shared.{
  ℕ, zero, suc, Bool, ◌||◌, List, [], CString, codes, str_eq, get_elem?, if◌then◌else◌, ◌+◌,
}
use sisop_2012_2c.Shared.Int.{ℤ, pos, negsuc, gtb_ℤ, eqb_ℤ}
use sisop_2012_2c.Shared.Outcome.{Outcome, ok, exits, sem_wait, deref, ◌>>=◌}
use sisop_2012_2c.Commons.{Collections, list_add, queue_pop}
use sisop_2012_2c.Process.{ProcessImage, Channel, sem_after_trywait, enqueue}
use sisop_2012_2c.Doubles.{Doubles}
use sisop_2012_2c.System.{System, QueueEntry}
use Order.{order_insert}

pub str_switch : CString → ℤ
unfolding str_eq
str_switch alg =
    if str_eq alg (codes "FIFO")
    then pos 1
    else if str_eq alg (codes "RR")
    then pos 2
    else if str_eq alg (codes "PRI")
    then pos 3
    else if str_eq alg (codes "SPN")
    then pos 4
    else if str_eq alg (codes "PLPN")
    then pos 5
    else if str_eq alg (codes "PLPR")
    then pos 6
    else if str_eq alg (codes "PLFQ")
    then pos 7
    else if str_eq alg (codes "PLFIO")
    then pos 8
    else negsuc 0

-- while (sem_trywait(empty) != -1): the value of the semaphore bounds the rounds. `sink` is where the
-- process goes, the list of arrivals or LPL.
module _ {A S : Type 0} ⦃c : Collections⦄ (sink : S → A → S) where
  pub drain_loop : ℕ → List A → ℕ → S → Outcome (Channel A × ℕ × S)
  drain_loop zero queue sts_in_empty acc =
      ok (record { queue = queue; empty = 0 }, sts_in_empty, acc)
  drain_loop (suc n) queue sts_in_empty acc = do
    let popped = queue_pop queue
    process_img ← deref popped.0
    drain_loop n popped.1 (sem_after_trywait sts_in_empty) (sink acc process_img)

  pub drain : Channel A → ℕ → S → Outcome (Channel A × ℕ × S)
  unfolding drain_loop
  drain ch sts_in_empty acc = drain_loop ch.empty ch.queue sts_in_empty acc

module _ {D S : Type 0} ⦃c : Collections⦄ (sink : S → ProcessImage D → S) where
  -- The switch over the name of one entry of the queues array.
  pub drain_case : CString → System D → S → Outcome (System D × S)
  unfolding str_switch
  drain_case name s acc =
      let case = str_switch name in
      if eqb_ℤ case (pos 5)
      then (do
        (ch, sts, acc') ← drain sink s.lpn s.sts_in_empty acc
        ok (record s { lpn = ch; sts_in_empty = sts }, acc'))
      else if eqb_ℤ case (pos 6)
      then (do
        (ch, sts, acc') ← drain sink s.lpr s.sts_in_empty acc
        ok (record s { lpr = ch; sts_in_empty = sts }, acc'))
      else if eqb_ℤ case (pos 7)
      then (do
        (ch, sts, acc') ← drain sink s.lfq s.sts_in_empty acc
        ok (record s { lfq = ch; sts_in_empty = sts }, acc'))
      else if eqb_ℤ case (pos 8)
      then (do
        (ch, sts, acc') ← drain sink s.lfio s.sts_in_empty acc
        ok (record s { lfio = ch; sts_in_empty = sts }, acc'))
      else ok (s, acc)

  -- for (i = 0; i < 4; i++), with the rounds that are left
  pub drain_queues : ℕ → ℕ → System D → S → Outcome (System D × S)
  drain_queues zero i s acc = ok (s, acc)
  drain_queues (suc rounds) i s acc = do
    entry ← deref (get_elem? s.settings.queues_array i)
    (s', acc') ← drain_case entry.name s acc
    drain_queues rounds (i + 1) s' acc'

module _ {D : Type 0} ⦃c : Collections⦄ where
  pub ordenar_fifo : System D → Outcome (System D)
  ordenar_fifo s = do (s', lpl) ← drain_queues enqueue 4 0 s s.lpl; ok (record s' { lpl = lpl })

  -- psImg1->priority > psImg2->priority
  abbrev pub priority_gt : ProcessImage D → ProcessImage D → Bool
  priority_gt p q = gtb_ℤ p.priority q.priority

  unfoldable pub order_insert_prio_list : List (ProcessImage D) → System D → Outcome (System D)
  order_insert_prio_list prio_list s = do
    lpl ← order_insert priority_gt prio_list s.lpl
    ok (record s { lpl = lpl })

  pub ordenar_pri : System D → Outcome (System D)
  ordenar_pri s = do
    (s', prio_list) ← drain_queues list_add 4 0 s []
    order_insert_prio_list prio_list s'

module _ {D : Type 0} ⦃c : Collections⦄ ⦃d : Doubles D⦄ where
  -- psImg1->Tspn > psImg2->Tspn
  abbrev pub tspn_gt : ProcessImage D → ProcessImage D → Bool
  tspn_gt p q = d.gt p.tspn q.tspn

  unfoldable pub order_insert_spn_list : List (ProcessImage D) → System D → Outcome (System D)
  order_insert_spn_list prio_list s = do
    lpl ← order_insert tspn_gt prio_list s.lpl
    ok (record s { lpl = lpl })

  pub ordenar_spn : System D → Outcome (System D)
  ordenar_spn s = do
    (s', prio_list) ← drain_queues list_add 4 0 s []
    order_insert_spn_list prio_list s'

  -- One round of the thread's loop: `sem_wait(STS_in_empty)`, and at once the `sem_post` that gives the
  -- semaphore its old value again.
  pub sts_round : System D → Outcome (System D)
  unfolding str_switch
  sts_round s = do
    taken ← sem_wait s.sts_in_empty
    let case = str_switch s.settings.alg
    if eqb_ℤ case (pos 1) || eqb_ℤ case (pos 2)
        then ordenar_fifo s
        else if eqb_ℤ case (pos 3)
        then ordenar_pri s
        else if eqb_ℤ case (pos 4)
        then ordenar_spn s
        else exits
