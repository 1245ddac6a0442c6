-- ===== src/Config.antt =====
-- The reading of the configuration, PROCER/PP/src/configure.c: the scheduling algorithm and the
-- priorities of the queues are read again whenever pp.config changes, the rest the first time only.
pub mod Reading
pub mod Events
pub mod Order
pub mod Accounting
pub mod Pool
use sisop_2012_2c.Shared.{
  ℕ, zero, suc, ◌+◌, Bool, true, false, List, [], ◌∷◌, CString, codes, str_eq, get_elem?,
  if◌then◌else◌,
}
use sisop_2012_2c.Shared.Int.{ℤ, gtb_ℤ}
use sisop_2012_2c.Shared.Outcome.{Outcome, ok, hang, deref, ◌>>=◌}
use sisop_2012_2c.Commons.{Collections}
use sisop_2012_2c.Doubles.{Doubles}
use sisop_2012_2c.System.{System, Settings, QueueEntry}
use sisop_2012_2c.Sts.{order_insert_prio_list, order_insert_spn_list}

-- A t_config as the commons library has read it: config_get_string_value of ALG, the
-- config_get_int_value of a key, and atof of ALFA.
pub record Config (D : Type 0) : Type 0 where
  pub alg : CString
  pub int_value : CString → ℤ
  pub alfa : D

abbrev pub entry_gt : QueueEntry → QueueEntry → Bool
entry_gt a b = gtb_ℤ a.priority b.priority

-- queuesArray[i] = a
abbrev pub put_entry : List QueueEntry → ℕ → QueueEntry → List QueueEntry
put_entry [] i a = []
put_entry (x ∷ array) zero a = a ∷ array
put_entry (x ∷ array) (suc i) a = x ∷ put_entry array i a

-- for (i = 0; i < 3; i++), with the rounds that are left
pub reorder_pass : ℕ → ℕ → List QueueEntry → Bool → Outcome (List QueueEntry × Bool)
reorder_pass zero i array flag = ok (array, flag)
reorder_pass (suc rounds) i array flag = do
  here ← deref (get_elem? array i)
  next ← deref (get_elem? array (suc i))
  elim (entry_gt here next) [
    | true ↦ reorder_pass rounds (suc i) (put_entry (put_entry array (suc i) here) i next) false
    | false ↦ reorder_pass rounds (suc i) array flag
  ]

-- while (!flag), on fuel
pub reorder_loop : ℕ → List QueueEntry → Outcome (List QueueEntry)
unfolding reorder_pass
reorder_loop zero array = hang
reorder_loop (suc fuel) array = do
  passed ← reorder_pass 3 0 array true
  elim passed.1 [ true ↦ ok passed.0 | false ↦ reorder_loop fuel passed.0 ]

-- Of four entries no more than six pairs are out of order.
pub reorder_queues_array_priority : List QueueEntry → Outcome (List QueueEntry)
unfolding reorder_loop
reorder_queues_array_priority array = reorder_loop 7 array

module _ {D : Type 0} where
  -- qArray[i].priority = config_get_int_value(config, qArray[i].name)
  abbrev pub read_priorities : Config D → List QueueEntry → List QueueEntry
  read_priorities config [] = []
  read_priorities config (e ∷ array) =
      record e { priority = config.int_value e.name } ∷ read_priorities config array

  -- What is read while `flagReady` is false.
  abbrev pub read_fixed : Config D → Settings D → Settings D
  read_fixed config t = if t.flag_ready then t else record t {
    port = config.int_value (codes "PORT");
    quantum = config.int_value (codes "QUANTUM");
    io_thread_count = config.int_value (codes "IO_THREADS");
    io_time = config.int_value (codes "IO_TIME");
    mmp = config.int_value (codes "MMP");
    mps = config.int_value (codes "MPS");
    tant = config.int_value (codes "TANT");
    alfa = config.alfa;
    flag_ready = true;
  }

module _ {D : Type 0} ⦃c : Collections⦄ ⦃d : Doubles D⦄ where
  -- The lists that are handed to the ordering are blank.
  reorder_ready : CString → System D → Outcome (System D)
  unfolding str_eq
  reorder_ready alg s =
      if str_eq alg (codes "PRI")
      then order_insert_prio_list [] s
      else if str_eq alg (codes "SPN")
      then order_insert_spn_list [] s
      else ok s

  pub configuration_reader : Config D → System D → Outcome (System D)
  unfolding reorder_ready
  configuration_reader config s = do
    s' ← reorder_ready config.alg s
    array ← reorder_queues_array_priority (read_priorities config s.settings.queues_array)
    ok (record s' {
      settings = read_fixed config (record (s.settings) {
        alg = config.alg;
        queues_array = array;
        sent_time = config.int_value (codes "SENT_TIME");
      });
    })
