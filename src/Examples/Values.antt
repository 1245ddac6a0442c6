-- ===== src/Examples/Values.antt =====
-- The parameters at concrete functions, and a system with processes in its queues.
use sisop_2012_2c.Shared.{
  ℕ, ◌+◌, ◌*◌, ◌-◌, ◌≡◌, refl, true, false, ◌&&◌, [], ◌∷◌, ◌++◌, none, some, CString, codes, str_eq,
  length, get_elem?, take, drop, erase_idx, insert_idx, ltb, leb, arith,
}
use sisop_2012_2c.Shared.Int.{pos, pos_part}
use sisop_2012_2c.Commons.{Collections, Strings}
use sisop_2012_2c.Doubles.{Doubles}
use sisop_2012_2c.Process.{ProcessImage, counted}
use sisop_2012_2c.System.{System, Settings}
use sisop_2012_2c.Wire.RoundTrip.{IsText}
use sisop_2012_2c.Threads.{initial_system}
use sisop_2012_2c.Sts.Drain.{IsOrder, QueuesCounted, entry, new, resumed, end_of_quantum, end_of_io}

instance abbrev pub lists : Collections
lists = record {
  size = length;
  add = λ l x. l ++ x ∷ [];
  get = get_elem?;
  remove = λ l i. (get_elem? l i, erase_idx l i);
  add_in_index = insert_idx;
  push = λ l x. l ++ x ∷ [];
  pop = λ l. elim l [ [] ↦ (none, []) | x ∷ rest ↦ (some x, rest) ];
  size_law = λ l. refl;
  add_law = λ l x. refl;
  get_law = λ l i. refl;
  remove_law = λ l i h. refl;
  remove_empty = λ i. refl;
  add_in_index_law = λ l i x. refl;
  push_law = λ l x. refl;
  pop_empty = refl;
  pop_law = λ x l. refl;
}

-- Trimming is left out: no line of the examples has a blank at an end.
instance abbrev pub strings : Strings
strings = record {
  starts_with = λ s t. str_eq (take (length t) s) t;
  ends_with = λ s t. leb (length t) (length s) && str_eq (drop (length s - length t) s) t;
  trim = λ s. s;
  starts_with_law = λ s t. refl;
  ends_with_law = λ s t. refl;
}

pub ltb_asymm : (x y : ℕ) → ltb y x ≡ true → ltb x y ≡ false
ltb_asymm x y h = ground arith

pub ltb_trans : (x y z : ℕ) → ltb y x ≡ true → ltb z y ≡ true → ltb z x ≡ true
ltb_trans x y z h k = ground arith

-- Numbers that are whole and not negative.
instance abbrev pub doubles : Doubles ℕ
doubles = record {
  gt = λ x y. ltb y x;
  of_int = pos_part;
  add = λ x y. x + y;
  sub = λ x y. x - y;
  mul = λ x y. x * y;
  gt_asymm = ltb_asymm;
  gt_trans = ltb_trans;
}

-- x=1+2 and the end
abbrev pub script : CString
script = codes "variables x\nx=1+2\nfin_programa"

abbrev pub process : ℕ → ℕ → ProcessImage ℕ
process pid priority = record {
  clientfd = pid + 10;
  pid = pid;
  priority = pos priority;
  pc = 0;
  code = script;
  vars = none;
  stack = [];
  tspn = priority;
}

abbrev pub settings : Settings ℕ
settings = record {
  alg = codes "RR";
  queues_array =
      entry end_of_io (pos 1)
      ∷ entry new (pos 2)
      ∷ entry resumed (pos 3)
      ∷ entry end_of_quantum (pos 4)
      ∷ [];
  sent_time = pos 1;
  flag_ready = true;
  port = pos 5000;
  quantum = pos 2;
  io_thread_count = pos 2;
  io_time = pos 1;
  mmp = pos 8;
  mps = pos 9;
  tant = pos 1;
  alfa = 0;
}

-- Three arrivals and two processes that are ready.
abbrev pub busy : System ℕ
busy = record {
  settings = settings;
  lfifo = counted [];
  lpn = counted (process 1 3 ∷ process 2 1 ∷ []);
  lpr = counted [];
  lfq = counted [];
  lfio = counted (process 3 2 ∷ []);
  lpl = counted (process 4 2 ∷ process 5 2 ∷ []);
  lpb = counted [];
  lps = [];
  sending_list = [];
  sts_in_empty = 3;
  mmp_sem = 3;
  mps_sem = 4;
  io_threads = 2;
  suspend = false;
  next_pid = 6;
  serving = [];
  lts_new_waits = false;
}

pub busy-QueuesCounted : QueuesCounted busy
busy-QueuesCounted = elim [ new ↦ refl | resumed ↦ refl | end_of_quantum ↦ refl | end_of_io ↦ refl ]

pub busy-IsOrder : IsOrder end_of_io new resumed end_of_quantum busy
busy-IsOrder = record {
  p = pos 1;
  q = pos 2;
  r = pos 3;
  t = pos 4;
  array = refl;
  ba = λ e. cc;
  ca = λ e. cc;
  cb = λ e. cc;
  da = λ e. cc;
  db = λ e. cc;
  dc = λ e. cc;
}

abbrev pub short_script : CString
short_script = codes "x=1"

pub short_script-IsText : IsText short_script
short_script-IsText = ((λ e. omega arith), ((λ e. omega arith), ((λ e. omega arith), _)))

abbrev pub empty_system : System ℕ
empty_system = initial_system settings
