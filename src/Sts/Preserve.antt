-- ===== src/Sts/Preserve.antt =====
-- What a round of the scheduler keeps: a property of the state that the emptying of an incoming queue
-- and a new LPL keep.
use sisop_2012_2c.Shared.{inl, inr, ◌||◌, List, ap, ◌∙◌}
use sisop_2012_2c.Shared.Int.{pos, eqb_ℤ}
use sisop_2012_2c.Shared.Outcome.{
  ok, sem_wait-cases, Holds, Holds-of_ok, Holds-if, Holds-waits, Holds-exits,
}
use sisop_2012_2c.Commons.{Collections}
use sisop_2012_2c.Doubles.{Doubles}
use sisop_2012_2c.Process.{ProcessImage, Channel, counted}
use sisop_2012_2c.System.{System, QueueEntry}
use sisop_2012_2c.System.Consistent.{IsConsistent}
use sisop_2012_2c.Sts.{str_switch, sts_round, ordenar_fifo, ordenar_pri, ordenar_spn}
use sisop_2012_2c.Sts.Drain.{Origin, IsOrder, drained, all_drained}
use sisop_2012_2c.Sts.Pass.{ordenar_fifo-appends}
use sisop_2012_2c.Sts.Accounting.{
  QueuesCounted-of_IsConsistent, ordenar_pri-passes, ordenar_spn-passes,
}

pub record IsKeptBySts {D : Type 0} (P : System D → Type 0) : Type 0 where
  pub drained_kept : (o : Origin) (s : System D) → P s → P (drained o s)
  pub ready_kept : (s : System D) (l : Channel (ProcessImage D)) → P s → P (record s { lpl = l })

module _ {D : Type 0} ⦃cl : Collections⦄ ⦃dbl : Doubles D⦄ (P : System D → Type 0)
    (k : IsKeptBySts P) (array : List QueueEntry) (a b c d : Origin) (s : System D) where
  passed-kept :
      (ready : List (ProcessImage D))
      → P s
      → P (record (all_drained a b c d s) { lpl = counted ready })
  passed-kept ready h =
      let s1 = drained a s in
      let s2 = drained b s1 in
      let s3 = drained c s2 in
      k.ready_kept (drained d s3) (counted ready)
        (k.drained_kept d s3 (k.drained_kept c s2 (k.drained_kept b s1 (k.drained_kept a s h))))

  pub sts_round-kept : IsOrder a b c d s → IsConsistent array s → P s → Holds P (sts_round s)
  unfolding sts_round
  sts_round-kept o h p =
      let counts = QueuesCounted-of_IsConsistent array s h in
      elim (sem_wait-cases s.sts_in_empty) [
        | inl nothing ↦ rw nothing Holds-waits
        | inr (n, more, taken) ↦ rw taken (
            Holds-if
              (eqb_ℤ (str_switch s.settings.alg) (pos 1)
                || eqb_ℤ (str_switch s.settings.alg) (pos 2))
              (λ fifo.
                let (s', e, q) = ordenar_fifo-appends a b c d s counts h.5 o in
                Holds-of_ok (ordenar_fifo s) _ (e ∙ ap ok q.0) (passed-kept _ p))
              (λ no_fifo.
                Holds-if (eqb_ℤ (str_switch s.settings.alg) (pos 3))
                  (λ pri.
                    let (ready, e) = ordenar_pri-passes a b c d s counts h.5 o in
                    Holds-of_ok (ordenar_pri s) _ e (passed-kept ready p))
                  (λ no_pri.
                    Holds-if (eqb_ℤ (str_switch s.settings.alg) (pos 4))
                      (λ spn.
                        let (ready, e) = ordenar_spn-passes a b c d s counts h.5 o in
                        Holds-of_ok (ordenar_spn s) _ e (passed-kept ready p))
                      (λ unknown. Holds-exits))))
      ]
