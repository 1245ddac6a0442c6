-- ===== src/Sts/Conservation.antt =====
-- A round of the scheduler moves every process that has arrived, and loses none.
use mathlib.Core.List.{Perm}
use mathlib.Core.List.Perm
use sisop_2012_2c.Shared.{
  ℕ, ◌+◌, ◌<◌, ◌≡◌, ◌≢◌, refl, ap, ◌∙◌, ◌⊎◌, inl, inr, ◌||◌, List, [], ◌++◌, length, length-append,
  List-cases, arith,
}
use sisop_2012_2c.Shared.Int.{pos, eqb_ℤ}
use sisop_2012_2c.Shared.Outcome.{
  ok, sem_wait-cases, Holds, Holds-of_ok, Holds-if, Holds-waits, Holds-exits,
}
use sisop_2012_2c.Commons.{Collections}
use sisop_2012_2c.Doubles.{Doubles}
use sisop_2012_2c.Process.{ProcessImage, counted}
use sisop_2012_2c.Sts.{str_switch, sts_round, ordenar_fifo, ordenar_pri, ordenar_spn}
use sisop_2012_2c.Sts.Pass.{ordenar_fifo-appends, ordenar_pri-sorts, ordenar_spn-sorts}
use sisop_2012_2c.Sts.Accounting.{passed-IsConsistent, QueuesCounted-of_IsConsistent}
use sisop_2012_2c.System.{System, QueueEntry}
use sisop_2012_2c.System.Consistent.{IsConsistent, incoming}
use sisop_2012_2c.Sts.Drain.{
  Origin, new, resumed, end_of_quantum, end_of_io, IsOrder, drained, all_drained, all_drained-empty,
  arrivals, queue_of, queues_kept,
}

-- Four different queues are all the queues there are.
number : Origin → ℕ
number new = 0
number resumed = 1
number end_of_quantum = 2
number end_of_io = 3

number-lt : (o : Origin) → number o < 4
unfolding number
number-lt new = omega arith
number-lt resumed = omega arith
number-lt end_of_quantum = omega arith
number-lt end_of_io = omega arith

Origin-cases : (o p : Origin) → (o ≡ p) ⊎ (number o ≢ number p)
unfolding number
Origin-cases new new = inl refl
Origin-cases resumed resumed = inl refl
Origin-cases end_of_quantum end_of_quantum = inl refl
Origin-cases end_of_io end_of_io = inl refl
Origin-cases new resumed = inr (λ e. omega arith)
Origin-cases new end_of_quantum = inr (λ e. omega arith)
Origin-cases new end_of_io = inr (λ e. omega arith)
Origin-cases resumed new = inr (λ e. omega arith)
Origin-cases resumed end_of_quantum = inr (λ e. omega arith)
Origin-cases resumed end_of_io = inr (λ e. omega arith)
Origin-cases end_of_quantum new = inr (λ e. omega arith)
Origin-cases end_of_quantum resumed = inr (λ e. omega arith)
Origin-cases end_of_quantum end_of_io = inr (λ e. omega arith)
Origin-cases end_of_io new = inr (λ e. omega arith)
Origin-cases end_of_io resumed = inr (λ e. omega arith)
Origin-cases end_of_io end_of_quantum = inr (λ e. omega arith)

number-ne : (o p : Origin) → o ≢ p → number o ≢ number p
number-ne o p h = elim (Origin-cases o p) [ inl e ↦ absurd (h e) | inr n ↦ n ]

five_of_four :
    (o a b c d : ℕ)
    → o < 4
    → a < 4
    → b < 4
    → c < 4
    → d < 4
    → b ≢ a
    → c ≢ a
    → c ≢ b
    → d ≢ a
    → d ≢ b
    → d ≢ c
    → o ≢ a
    → o ≢ b
    → o ≢ c
    → o ≢ d
    → ⊥
five_of_four o a b c d ho ha hb hc hd ba ca cb da db dc oa ob oc od = omega arith

drained-incoming :
    {D : Type 0} (o : Origin) (t : System D)
    → incoming (drained o t) + length (queue_of o t) ≡ incoming t
drained-incoming new t = omega arith
drained-incoming resumed t = omega arith
drained-incoming end_of_quantum t = omega arith
drained-incoming end_of_io t = omega arith

module _ {D : Type 0} (a b c d : Origin) (s : System D) (o : IsOrder a b c d s) where
  all_named : (p : Origin) → (p ≡ a) ⊎ ((p ≡ b) ⊎ ((p ≡ c) ⊎ (p ≡ d)))
  all_named p = elim (Origin-cases p a) [
    | inl e ↦ inl e
    | inr pa ↦ elim (Origin-cases p b) [
      | inl e ↦ inr (inl e)
      | inr pb ↦ elim (Origin-cases p c) [
        | inl e ↦ inr (inr (inl e))
        | inr pc ↦ elim (Origin-cases p d) [
          | inl e ↦ inr (inr (inr e))
          | inr pd ↦ absurd (
              five_of_four (number p) (number a) (number b) (number c) (number d) (number-lt p)
                (number-lt a) (number-lt b) (number-lt c) (number-lt d) (number-ne b a o.ba)
                (number-ne c a o.ca) (number-ne c b o.cb) (number-ne d a o.da) (number-ne d b o.db)
                (number-ne d c o.dc) pa pb pc pd)
        ]
      ]
    ]
  ]

  all_empty : (p : Origin) → queue_of p (all_drained a b c d s) ≡ []
  all_empty p =
      let empty = all_drained-empty a b c d s o in
      elim (all_named p) [
        | inl e ↦ rw e empty.0
        | inr (inl e) ↦ rw e empty.1
        | inr (inr (inl e)) ↦ rw e empty.2
        | inr (inr (inr e)) ↦ rw e empty.3
      ]

  -- Nothing is left in an incoming queue.
  incoming-all_drained : incoming (all_drained a b c d s) ≡ 0
  incoming-all_drained = omega (
    arith,
    ap length (all_empty new),
    ap length (all_empty resumed),
    ap length (all_empty end_of_quantum),
    ap length (all_empty end_of_io),
  )

  -- The arrivals are all that the incoming queues held.
  length-arrivals : length (arrivals a b c d s) ≡ incoming s
  length-arrivals =
      let kept = queues_kept a b c d s o in
      omega (
        arith,
        incoming-all_drained,
        drained-incoming a s,
        drained-incoming b (drained a s),
        drained-incoming c (drained b (drained a s)),
        drained-incoming d (drained c (drained b (drained a s))),
        ap length kept.0,
        ap length kept.1,
        ap length kept.2,
        length-append (queue_of a s) (queue_of b s ++ (queue_of c s ++ queue_of d s)),
        length-append (queue_of b s) (queue_of c s ++ queue_of d s),
        length-append (queue_of c s) (queue_of d s),
      )

module _ {D : Type 0} ⦃cl : Collections⦄ (array : List QueueEntry) (a b c d : Origin)
    (s : System D) where
  -- LPL holds what it held and what has arrived, and nothing is left in an incoming queue or counted
  -- by STS_in_empty.
  abbrev pub Conserves : System D → Type 0
  Conserves s' =
      Perm s'.lpl.queue (s.lpl.queue ++ arrivals a b c d s)
      × (incoming s' ≡ 0)
      × (s'.sts_in_empty ≡ 0)

  passed-Conserves :
      (ready : List (ProcessImage D))
      → IsOrder a b c d s
      → IsConsistent array s
      → Perm ready (s.lpl.queue ++ arrivals a b c d s)
      → Conserves (record (all_drained a b c d s) { lpl = counted ready })
  passed-Conserves ready o h p =
      let (settings, lpn, lpr, lfq, lfio, lpl, lpb, lfifo, sts) =
        passed-IsConsistent array a b c d s ready h in
      (p, incoming-all_drained a b c d s o, sts ∙ incoming-all_drained a b c d s o)

  pub sts_round-Conserves :
      ⦃dbl : Doubles D⦄ → IsOrder a b c d s → IsConsistent array s → Holds Conserves (sts_round s)
  unfolding sts_round
  sts_round-Conserves o h =
      let (settings, lpn, lpr, lfq, lfio, lpl, lpb, lfifo, sts) = h in
      let counts = QueuesCounted-of_IsConsistent array s h in
      elim (sem_wait-cases s.sts_in_empty) [
        | inl nothing ↦ rw nothing Holds-waits
        | inr (n, more, taken) ↦ elim (List-cases (arrivals a b c d s)) [
          | inl none_arrives ↦
              absurd (omega (arith, sts, more, length-arrivals a b c d s o, ap length none_arrives))
          | inr (x, xs, some_arrive) ↦ rw taken (
              Holds-if
                (eqb_ℤ (str_switch s.settings.alg) (pos 1)
                  || eqb_ℤ (str_switch s.settings.alg) (pos 2))
                (λ fifo.
                  let (s', e, p) = ordenar_fifo-appends a b c d s counts lpl o in
                  Holds-of_ok (ordenar_fifo s) _ (e ∙ ap ok p.0)
                    (passed-Conserves _ o h (Perm.refl _)))
                (λ no_fifo.
                  Holds-if (eqb_ℤ (str_switch s.settings.alg) (pos 3))
                    (λ pri.
                      let (s', e, p, ready) =
                        ordenar_pri-sorts a b c d s x xs some_arrive counts lpl o in
                      Holds-of_ok (ordenar_pri s) _ (e ∙ ap ok p.0)
                        (passed-Conserves _ o h ready.1))
                    (λ no_pri.
                      Holds-if (eqb_ℤ (str_switch s.settings.alg) (pos 4))
                        (λ spn.
                          let (s', e, p, ready) =
                            ordenar_spn-sorts a b c d s x xs some_arrive counts lpl o in
                          Holds-of_ok (ordenar_spn s) _ (e ∙ ap ok p.0)
                            (passed-Conserves _ o h ready.1))
                        (λ unknown. Holds-exits))))
        ]
      ]
