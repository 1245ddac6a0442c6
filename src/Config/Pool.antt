-- ===== src/Config/Pool.antt =====
-- A reading of the configuration leaves the I/O threads alone, and their number is read once.
use sisop_2012_2c.Shared.{
  ◌≡◌, refl, true, Bool-cases, inl, inr, List, [], CString, codes, str_eq, length, ap, arith,
}
use sisop_2012_2c.Shared.Int.{to_u32}
use sisop_2012_2c.Shared.Outcome.{Holds, Holds-ok, Holds-if, Holds->>=, Holds-after}
use sisop_2012_2c.Commons.{Collections}
use sisop_2012_2c.Doubles.{Doubles}
use sisop_2012_2c.System.{System, Settings, QueueEntry}
use sisop_2012_2c.Io.Pool.{IsPool}
use sisop_2012_2c.Sts.{order_insert_prio_list, order_insert_spn_list, priority_gt, tspn_gt}
use sisop_2012_2c.Sts.Order.{order_insert}
use sisop_2012_2c.Config.{
  Config, read_priorities, read_fixed, reorder_ready, reorder_queues_array_priority,
  configuration_reader,
}

module _ {D : Type 0} ⦃c : Collections⦄ ⦃dbl : Doubles D⦄ where
  -- What every reading reads.
  abbrev as_read : Config D → List QueueEntry → Settings D → Settings D
  as_read config array t = record t {
    alg = config.alg;
    queues_array = array;
    sent_time = config.int_value (codes "SENT_TIME");
  }

  -- The pool is the same.
  abbrev SamePool : System D → System D → Type 0
  SamePool s t = (t.io_threads ≡ s.io_threads) × (t.serving ≡ s.serving)

  reorder_ready-SamePool : (alg : CString) (s : System D) → Holds (SamePool s) (reorder_ready alg s)
  unfolding reorder_ready order_insert_prio_list order_insert_spn_list
  reorder_ready-SamePool alg s =
      Holds-if (str_eq alg (codes "PRI"))
        (λ pri. Holds-after (order_insert priority_gt [] s.lpl) λ l e. Holds-ok _ (refl, refl))
        (λ no_pri.
          Holds-if (str_eq alg (codes "SPN"))
            (λ spn. Holds-after (order_insert tspn_gt [] s.lpl) λ l e. Holds-ok _ (refl, refl))
            (λ other. Holds-ok s (refl, refl)))

  read_fixed-ready : (config : Config D) (t : Settings D) → (read_fixed config t).flag_ready ≡ true
  read_fixed-ready config t = elim (Bool-cases t.flag_ready) [
    | inl ready ↦ rw ready refl
    | inr first ↦ rw first refl
  ]

  read_fixed-io_thread_count :
      (config : Config D) (t : Settings D)
      → t.flag_ready ≡ true
      → (read_fixed config t).io_thread_count ≡ t.io_thread_count
  read_fixed-io_thread_count config t ready = rw ready refl

  -- Behind a reading the number of threads is known.
  pub configuration_reader-ready :
      (config : Config D) (s : System D)
      → Holds (λ s'. s'.settings.flag_ready ≡ true) (configuration_reader config s)
  unfolding configuration_reader
  configuration_reader-ready config s = Holds-after (reorder_ready config.alg s) λ t e.
      Holds-after (reorder_queues_array_priority (read_priorities config s.settings.queues_array))
        λ array f.
          let read = as_read config array s.settings in
          Holds-ok (record t { settings = read_fixed config read }) (read_fixed-ready config read)

  -- A later reading keeps the pool.
  pub configuration_reader-IsPool :
      (config : Config D) (s : System D) → IsPool s → Holds IsPool (configuration_reader config s)
  unfolding configuration_reader
  configuration_reader-IsPool config s (ready, h) =
      Holds->>= (SamePool s) (reorder_ready config.alg s) (reorder_ready-SamePool config.alg s)
        λ t (threads, serving).
          Holds-after
            (reorder_queues_array_priority (read_priorities config s.settings.queues_array))
            λ array f.
              let read = as_read config array s.settings in
              Holds-ok (record t { settings = read_fixed config read })
                (
                  read_fixed-ready config read,
                  omega (
                    arith,
                    h,
                    threads,
                    ap length serving,
                    ap to_u32 (read_fixed-io_thread_count config read ready),
                  ),
                )
