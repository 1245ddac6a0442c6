-- ===== src/Log.antt =====
-- The log files of both programs: PROCER/PP/src/logs_def.c and PROCER/PI/src/logs_def.c. A file that
-- is opened to append is its contents, which the threads of PP share; the clock and the result of
-- fopen are arguments.
use sisop_2012_2c.Shared.{
  ℕ, Bool, [], ◌∷◌, ◌++◌, Option, none, some, CString, codes, length, if◌then◌else◌,
}
use sisop_2012_2c.Shared.Int.{ℤ, pos}
use sisop_2012_2c.Shared.Number.{print_int, print_nat, int_add}
use sisop_2012_2c.Shared.Outcome.{Outcome, ok, exits, deref, ◌>>=◌}

-- A `struct tm`, as localtime fills it.
pub record Tm : Type 0 where
  pub tm_year : ℤ
  pub tm_mon : ℤ
  pub tm_mday : ℤ
  pub tm_hour : ℤ
  pub tm_min : ℤ
  pub tm_sec : ℤ

-- t_logs: the thread is NULL or a name with its number; numbers are printed as `unsigned`.
pub record Logs : Type 0 where
  pub program_name : CString
  pub program_pid : ℕ
  pub thread : Option (CString × ℕ)

-- Both append to a file that is named by the program and its pid in the directory of $PWD.
pub log_create : ℕ → Option (CString × ℕ) → Bool → Option Logs
log_create pid thread opened =
    if opened
    then some (record { program_name = codes "PP"; program_pid = pid; thread = thread })
    else none

-- PI ends where the file does not open.
pub client_log_create : ℕ → Bool → Outcome Logs
client_log_create pid opened =
    if opened
    then ok (record { program_name = codes "PI"; program_pid = pid; thread = none })
    else exits

-- "%d/%d/%d %d:%d:%d"
pub get_date_string : Tm → Outcome CString
get_date_string t = do
  year ← int_add (pos 1900) t.tm_year
  month ← int_add (pos 1) t.tm_mon
  ok (
      print_int year
      ++ (b'/' ∷ print_int month
          ++ (b'/' ∷ print_int t.tm_mday
              ++ (b' ' ∷ print_int t.tm_hour
                  ++ (b':' ∷ print_int t.tm_min ++ (b':' ∷ print_int t.tm_sec))))))

-- "[%s/%u] "
abbrev pub owner_text : CString → ℕ → CString
owner_text name number = b'[' ∷ name ++ (b'/' ∷ print_nat number ++ codes "] ")

abbrev pub thread_text : Option (CString × ℕ) → CString
thread_text none = []
thread_text (some (name, number)) = owner_text name number

-- The text of one entry.
pub log_entry : CString → Logs → CString → CString → CString
log_entry level log date message =
    b'[' ∷ date
    ++ (codes "] - "
        ++ (owner_text log.program_name log.program_pid
            ++ (thread_text log.thread
                ++ (b'[' ∷ level ++ (codes "]:\n    " ++ (message ++ codes "\n\n"))))))

-- What the three writes share: the entry goes to the end of the file, and its length is the result.
-- Where logCreate has given NULL the writes read through it.
log_write : CString → Option Logs → Tm → CString → CString → Outcome (CString × ℕ)
log_write level maybe_log now message file = do
  date ← get_date_string now
  log ← deref maybe_log
  let entry = log_entry level log date message
  ok (file ++ entry, length entry)

pub log_write_info : Option Logs → Tm → CString → CString → Outcome (CString × ℕ)
log_write_info = log_write (codes "INFO")

pub log_write_error : Option Logs → Tm → CString → CString → Outcome (CString × ℕ)
log_write_error = log_write (codes "ERROR")

-- "PID:%d; Origen:%s; Destino:%s"
pub log_write_lsch : Option Logs → Tm → ℤ → CString → CString → CString → Outcome (CString × ℕ)
log_write_lsch log now pid origen destino = log_write (codes "LSCH") log now (
    codes "PID:"
    ++ (print_int pid ++ (codes "; Origen:" ++ (origen ++ (codes "; Destino:" ++ destino)))))

-- PI's entries name no thread, and its log is there.
pub client_log_entry : CString → Logs → CString → CString → CString
client_log_entry level log date message =
    b'[' ∷ date
    ++ (codes "] - "
        ++ (owner_text log.program_name log.program_pid
            ++ (b'[' ∷ level ++ (codes "]:\n    " ++ (message ++ codes "\n\n")))))

client_log_write : CString → Logs → Tm → CString → CString → Outcome (CString × ℕ)
unfolding client_log_entry
client_log_write level log now message file = do
  date ← get_date_string now
  let entry = client_log_entry level log date message
  ok (file ++ entry, length entry)

pub client_log_write_info : Logs → Tm → CString → CString → Outcome (CString × ℕ)
client_log_write_info = client_log_write (codes "INFO")

pub client_log_write_error : Logs → Tm → CString → CString → Outcome (CString × ℕ)
client_log_write_error = client_log_write (codes "ERROR")
