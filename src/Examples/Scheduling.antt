-- ===== src/Examples/Scheduling.antt =====
-- The theorems on the scheduler, the configuration and the lists of the clients at concrete systems.
use sisop_2012_2c.Shared.{ℕ, ◌≡◌, refl, List, [], ◌∷◌, ◌++◌, inl, codes}
use sisop_2012_2c.Shared.Int.{pos}
use sisop_2012_2c.Shared.Outcome.{ok, fault}
use sisop_2012_2c.Process.{counted, ProcessImage}
use sisop_2012_2c.System.{System, QueueEntry}
use sisop_2012_2c.Sts.{ordenar_fifo, ordenar_pri, ordenar_spn, priority_gt, tspn_gt}
use sisop_2012_2c.Sts.Drain.{arrivals, entry, new, resumed, end_of_quantum, end_of_io}
use sisop_2012_2c.Sts.Order.{order_list}
use sisop_2012_2c.Sts.Order.Stable.{stable_sort, IsOrdered}
use sisop_2012_2c.Sts.Order.Loop.{order_list-sorts}
use sisop_2012_2c.Sts.Pass.{
  Passed, IsOrderedReady, ready_after, priority_gt-IsStrict, ordenar_fifo-appends,
  ordenar_pri-sorts, ordenar_spn-sorts,
}
use sisop_2012_2c.Config.{Config, configuration_reader, entry_gt, reorder_queues_array_priority}
use sisop_2012_2c.Config.Reading.{configuration_reader-loses, reorder_queues_array_priority-sorts}
use sisop_2012_2c.Lts.{remove_fd}
use sisop_2012_2c.Lts.Search.{remove_first, remove_fd-remove_first}
use sisop_2012_2c.Examples.Values.{lists, doubles, busy, busy-QueuesCounted, busy-IsOrder, process}

ordenar_fifo-appends_example :
    (s' : System ℕ) × (ordenar_fifo busy ≡ ok s')
    × Passed end_of_io new resumed end_of_quantum busy
        (busy.lpl.queue ++ arrivals end_of_io new resumed end_of_quantum busy)
        s'
ordenar_fifo-appends_example =
    ordenar_fifo-appends end_of_io new resumed end_of_quantum busy busy-QueuesCounted refl
      busy-IsOrder

ordenar_pri-sorts_example :
    (s' : System ℕ) × (ordenar_pri busy ≡ ok s')
    × Passed end_of_io new resumed end_of_quantum busy
        (ready_after priority_gt busy.lpl.queue
          (arrivals end_of_io new resumed end_of_quantum busy))
        s'
    × IsOrderedReady priority_gt busy.lpl.queue (arrivals end_of_io new resumed end_of_quantum busy)
ordenar_pri-sorts_example =
    ordenar_pri-sorts end_of_io new resumed end_of_quantum busy (process 3 2)
      (process 1 3 ∷ process 2 1 ∷ []) refl busy-QueuesCounted refl busy-IsOrder

ordenar_spn-sorts_example :
    (s' : System ℕ) × (ordenar_spn busy ≡ ok s')
    × Passed end_of_io new resumed end_of_quantum busy
        (ready_after tspn_gt busy.lpl.queue (arrivals end_of_io new resumed end_of_quantum busy))
        s'
    × IsOrderedReady tspn_gt busy.lpl.queue (arrivals end_of_io new resumed end_of_quantum busy)
ordenar_spn-sorts_example =
    ordenar_spn-sorts end_of_io new resumed end_of_quantum busy (process 3 2)
      (process 1 3 ∷ process 2 1 ∷ []) refl busy-QueuesCounted refl busy-IsOrder

order_list-sorts_example :
    order_list (priority_gt {D = ℕ}) (process 1 3 ∷ process 2 1 ∷ process 3 2 ∷ [])
    ≡ ok (stable_sort priority_gt (process 1 3 ∷ process 2 1 ∷ process 3 2 ∷ []))
order_list-sorts_example =
    order_list-sorts priority_gt priority_gt-IsStrict (process 1 3 ∷ process 2 1 ∷ process 3 2 ∷ [])

-- Keys that all read as 3.
abbrev pri_config : Config ℕ
pri_config = record { alg = codes "PRI"; int_value = λ key. pos 3; alfa = 0 }

configuration_reader-loses_example :
    (s' : System ℕ) × (configuration_reader pri_config busy ≡ ok s') × (s'.lpl ≡ counted [])
configuration_reader-loses_example =
    configuration_reader-loses pri_config busy (entry end_of_io (pos 1)) (entry new (pos 2))
      (entry resumed (pos 3)) (entry end_of_quantum (pos 4)) refl refl (inl refl)

abbrev turned : List QueueEntry
turned =
    entry end_of_io (pos 4)
    ∷ entry new (pos 3)
    ∷ entry resumed (pos 3)
    ∷ entry end_of_quantum (pos 1)
    ∷ []

reorder_queues_array_priority-sorts_example :
    (reorder_queues_array_priority turned ≡ ok (stable_sort entry_gt turned))
    × IsOrdered entry_gt (stable_sort entry_gt turned)
reorder_queues_array_priority-sorts_example =
    reorder_queues_array_priority-sorts (entry end_of_io (pos 4)) (entry new (pos 3))
      (entry resumed (pos 3)) (entry end_of_quantum (pos 1))

remove_fd-remove_first_example :
    (remove_fd (λ p. p.clientfd) (process 1 3 ∷ process 2 1 ∷ []) 12
      ≡ ok (remove_first (λ p. p.clientfd) 12 (process 1 3 ∷ process 2 1 ∷ [])))
    × (remove_fd {A = ProcessImage ℕ} (λ p. p.clientfd) [] 12 ≡ fault)
remove_fd-remove_first_example =
    remove_fd-remove_first (λ p. p.clientfd) 12 (process 1 3) (process 2 1 ∷ [])
