-- ===== src/System.antt =====
-- The state that the threads of PP share, as PROCER/PP/src/main.c creates it and hands it to each
-- thread: the queues with their semaphores, the lists, the counters MMP_sem, MPS_sem, io_threads and
-- STS_in_empty, and what `configure` reads. A lock is held from the start to the end of one of the
-- steps below, so it does not show. What a thread holds between two waits is a field too: the
-- requests that the I/O threads serve, and whether LTSnew has taken its first semaphore.
pub mod Consistent
pub mod Ready
use sisop_2012_2c.Shared.{ℕ, Bool, List, CString}
use sisop_2012_2c.Shared.Int.{ℤ}
use sisop_2012_2c.Process.{ProcessImage, IoProcessing, Msg, Channel}

-- t_queuesArray, whose `queue` pointer is never read
pub record QueueEntry : Type 0 where
  pub priority : ℤ
  pub name : CString

-- The values behind the pointers of t_configure.
pub record Settings (D : Type 0) : Type 0 where
  pub alg : CString
  pub queues_array : List QueueEntry
  pub sent_time : ℤ
  pub flag_ready : Bool
  pub port : ℤ
  pub quantum : ℤ
  pub io_thread_count : ℤ
  pub io_time : ℤ
  pub mmp : ℤ
  pub mps : ℤ
  pub tant : ℤ
  pub alfa : D

pub record System (D : Type 0) : Type 0 where
  pub settings : Settings D
  pub lfifo : Channel (ProcessImage D)
  pub lpn : Channel (ProcessImage D)
  pub lpr : Channel (ProcessImage D)
  pub lfq : Channel (ProcessImage D)
  pub lfio : Channel (ProcessImage D)
  pub lpl : Channel (ProcessImage D)
  pub lpb : Channel (IoProcessing D)
  pub lps : List (ProcessImage D)
  pub sending_list : List Msg
  pub sts_in_empty : ℕ
  pub mmp_sem : ℕ
  pub mps_sem : ℕ
  pub io_threads : ℕ
  pub suspend : Bool
  pub next_pid : ℕ
  pub serving : List (IoProcessing D)
  pub lts_new_waits : Bool
