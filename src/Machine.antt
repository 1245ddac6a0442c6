-- ===== src/Machine.antt =====
-- The instructions of AnSISOP as PROCER/PP/src/procer_defs.c executes them, one function for each
-- branch of the loops of `processExecution` and `functionExecution`. A machine is the process that
-- runs with the variables that PROCER hands to those functions; `slept` adds up the sleeps and
-- `checks` counts the tests of the loops' conditions.
pub mod Expression
pub mod Preserve
pub mod Charge
pub mod Progress
pub mod Requests
use sisop_2012_2c.Shared.{
  ℕ, zero, suc, ◌+◌, Bool, true, false, not, ◌&&◌, ◌||◌, List, [], ◌∷◌, ◌++◌, Option, none, some,
  CString, codes, str_eq, length, get_elem?, ltb, leb, ◌==◌, if◌then◌else◌,
}
use sisop_2012_2c.Shared.Int.{ℤ, pos, negsuc, eqb_ℤ, gtb_ℤ, to_u32, to_u16}
use sisop_2012_2c.Shared.Outcome.{Outcome, ok, fault, hang, deref, ◌>>=◌}
use sisop_2012_2c.Shared.Number.{atoi, print_int, print_nat}
use sisop_2012_2c.Commons.{
  Collections, Strings, list_add, queue_size, string_starts_with, string_ends_with,
}
use sisop_2012_2c.Process.{ProcessImage, Frame, Msg, IoProcessing, enqueue}
use sisop_2012_2c.Doubles.{Doubles}
use sisop_2012_2c.System.{System}
use sisop_2012_2c.Memory.{read_data, write_data, add_variables}
use sisop_2012_2c.Script.{advance, change_pc, find_function_line}
use Expression.{evaluate}

pub record Machine (D : Type 0) : Type 0 where
  pub system : System D
  pub image : ProcessImage D
  pub io_block : Bool
  pub quantum_count : ℕ
  pub rafaga : D
  pub slept : ℕ
  pub checks : ℕ

-- `text[i]`: the NUL is the last byte that can be read.
abbrev pub char_at : CString → ℕ → Outcome ℕ
char_at text i =
    if ltb i (length text)
    then deref (get_elem? text i)
    else if i == length text
    then ok 0
    else fault

-- What is left of a line from its first ';' on.
unfoldable pub from_semicolon : CString → CString
from_semicolon [] = []
from_semicolon (b ∷ s) = elim (b == b';') [ true ↦ b ∷ s | false ↦ from_semicolon s ]

-- The bytes before the first ',', which the code looks for without a test for the end, and the byte
-- after it.
unfoldable pub split_comma : CString → Outcome (CString × ℕ)
split_comma [] = fault
split_comma (b ∷ s) = elim (b == b',') [
  | true ↦ (do next ← char_at s 0; ok ([], next))
  | false ↦ (do (word, next) ← split_comma s; ok (b ∷ word, next))
]

-- The arguments of io(time,mode): the time, and whether the mode is 0, which does not block.
pub io_arguments : CString → Outcome (ℤ × Bool)
unfolding split_comma atoi
io_arguments text = do (word, mode) ← split_comma text; time ← atoi word; ok (time, mode == b'0')

-- The name in a call, up to its '('.
unfoldable pub called_name : CString → CString
called_name [] = []
called_name (b ∷ s) = elim (b == b'(') [ true ↦ [] | false ↦ b ∷ called_name s ]

-- `%c` of NUL ends the message there.
abbrev variable_text : ℕ → ℤ → CString
variable_text zero value = codes "IMPRIMIENDO VARIABLE "
variable_text name value =
    codes "IMPRIMIENDO VARIABLE " ++ (name ∷ codes ": " ++ (print_int value ++ 10 ∷ []))

abbrev no_threads_text : ℕ → CString
no_threads_text pc =
    codes "ERROR I/O no-bloqueante, hilos no disponibles, l"
    ++ (0xc3 ∷ 0xad ∷ codes "nea " ++ (print_nat (pc + 1) ++ 10 ∷ []))

abbrev no_threads_pid_text : ℕ → ℕ → CString
no_threads_pid_text pid pc = codes "PID:" ++ (print_nat pid ++ (codes "; " ++ no_threads_text pc))

module _ {D : Type 0} where
  abbrev pub set_pc : Machine D → ℕ → Machine D
  set_pc m pc = record m { image = record (m.image) { pc = pc } }

  -- sleep of an `unsigned`
  abbrev pub sleep : ℤ → Machine D → Machine D
  sleep seconds m = record m { slept = m.slept + to_u32 seconds }

  -- A line may end in ";seconds"; without it the time is SENT_TIME.
  abbrev pub line_time : CString → Machine D → Outcome ℤ
  line_time [] m = ok (m.system.settings.sent_time)
  line_time (b ∷ s) m = if b == b';' then atoi s else ok (m.system.settings.sent_time)

module _ {D : Type 0} ⦃c : Collections⦄ where
  -- list_add to sendingList of a message of type 'N'
  abbrev pub say : CString → Machine D → Machine D
  say text m = record m {
    system = record (m.system) {
      sending_list =
          list_add (m.system.sending_list)
            (record { fd = m.image.clientfd; type = b'N'; msg = text });
    };
  }

  -- queue_push to LPB and sem_post of LPB_empty. The entry points to the image, so what the process
  -- becomes later shows there too (`sync_image` of Procer).
  abbrev pub request_io : Bool → ℕ → Machine D → Machine D
  request_io flag time m = record m {
    system = record (m.system) {
      lpb =
          enqueue (m.system.lpb)
            (record { process_image = m.image; io_time = time; flag_non_blocking = flag });
    };
  }

  -- queue_size(LPB) < semValue
  abbrev pub threads_free : Machine D → Bool
  threads_free m = ltb (queue_size (m.system.lpb.queue)) (m.system.io_threads)

  pub write_step : ℕ → ℤ → Machine D → Outcome (Machine D)
  write_step name value m = do
    vars ← write_data (m.image.vars) name value
    ok (record m { image = record (m.image) { vars = vars } })

  pub variables_step : CString → Machine D → Outcome (Machine D)
  variables_step line m = do
    names ← advance 10 line
    vars ← add_variables (m.image.vars) names
    ok (record m { image = record (m.image) { vars = vars } })

  pub imprimir_step : CString → Machine D → Outcome (Machine D)
  imprimir_step line m = do
    name ← char_at line 9
    value ← read_data (m.image.vars) name
    ok (say (variable_text name value) m)

  -- io(time,mode): no sleep and no burst. `time` is already the uint32_t or the uint16_t.
  pub io_step : (ℤ → ℕ) → ℕ → CString → Machine D → Outcome (Machine D)
  unfolding io_arguments
  io_step width pc line m = do
    text ← advance 3 line
    (time, at_once) ← io_arguments text
    if at_once
        then (if threads_free m
            then ok (request_io true (width time) m)
            else ok (say (no_threads_text pc) m))
        else ok (record (request_io false (width time) m) { io_block = true })

module _ {D : Type 0} ⦃c : Collections⦄ ⦃d : Doubles D⦄ where
  -- Where the algorithm is RR the instruction counts for the quantum; it is one unit of burst.
  abbrev pub charge : Machine D → Machine D
  charge m = record m {
    quantum_count =
        if str_eq (m.system.settings.alg) (codes "RR")
        then suc (m.quantum_count)
        else m.quantum_count;
    rafaga = d.add (m.rafaga) (d.of_int (pos 1));
  }

  -- ssc,x,tag jumps where x is 0, and sleeps SENT_TIME before the time of the line.
  pub ssc_step : List CString → CString → Machine D → Outcome (Machine D)
  unfolding from_semicolon
  ssc_step code line m = do
    name ← char_at line 4
    value ← read_data (m.image.vars) name
    target ←
        (if eqb_ℤ value (pos 0)
          then (do tag ← advance 6 line; change_pc code tag)
          else ok (m.image.pc))
    seconds ← line_time (from_semicolon line) m
    ok (charge (sleep seconds (sleep (m.system.settings.sent_time) (set_pc m target))))

  -- snc,x,tag jumps where x is not 0.
  pub snc_step : List CString → CString → Machine D → Outcome (Machine D)
  unfolding from_semicolon
  snc_step code line m = do
    name ← char_at line 4
    value ← read_data (m.image.vars) name
    target ←
        (if eqb_ℤ value (pos 0)
          then ok (m.image.pc)
          else (do tag ← advance 6 line; change_pc code tag))
    seconds ← line_time (from_semicolon line) m
    ok (charge (sleep seconds (set_pc m target)))

  -- x=expression
  pub assign_step : CString → Machine D → Outcome (Machine D)
  unfolding write_step
  assign_step line m = do
    text ← advance 1 line
    (value, rest) ← evaluate (m.image.vars) text
    name ← char_at line 0
    written ← write_step name value m
    seconds ← line_time rest m
    ok (charge (sleep seconds written))

  -- The end of x=io(…), on all its ways.
  abbrev pub io_paid : Machine D → Machine D
  io_paid m = charge (sleep (m.system.settings.sent_time) m)

  -- x=io(time,mode) in the program. With mode 0 and a free thread LPB_mutex, which the thread holds
  -- since its test, is locked again: a default mutex never gives it.
  pub assign_io_step : ℕ → CString → Machine D → Outcome (Machine D)
  unfolding io_arguments write_step
  assign_io_step pc line m = do
    name ← char_at line 0
    text ← advance 5 line
    (time, at_once) ← io_arguments text
    if at_once
        then (if threads_free m then hang else (do
          written ← write_step name (pos 0) m
          ok (io_paid (say (no_threads_pid_text (m.image.pid) pc) written))))
        else (do
          written ← write_step name (pos 1) (request_io false (to_u32 time) m)
          ok (io_paid (record written { io_block = true })))

  -- x=io(time,mode) in a function, whose time is a uint16_t
  pub assign_io_function_step : ℕ → CString → Machine D → Outcome (Machine D)
  unfolding io_arguments write_step
  assign_io_function_step pc line m = do
    name ← char_at line 0
    text ← advance 5 line
    (time, at_once) ← io_arguments text
    if at_once
        then (if threads_free m
            then (do
              written ← write_step name (pos 1) (request_io true (to_u16 time) m)
              ok (io_paid written))
            else (do
              written ← write_step name (pos 0) m
              ok (io_paid (say (no_threads_text pc) written))))
        else (do
          written ← write_step name (pos 1) (request_io false (to_u16 time) m)
          ok (io_paid (record written { io_block = true })))
