-- ===== src/Lts.antt =====
-- The long term scheduler, PROCER/PP/src/LTS.c: `LTSconex` accepts scripts and resumptions from the
-- clients and sends them what waits in sendingList; `LTSnew` moves a delayed process to the new ones
-- when the degree of multiprogramming allows. What the network gives is part of an event, and what
-- the thread does to a connection is a list of actions.
pub mod Search
pub mod Preserve
pub mod Ready
pub mod Resumption
pub mod Delivery
pub mod Delay
pub mod Accounting
pub mod Admission
use sisop_2012_2c.Shared.{
  ℕ, zero, suc, ◌+◌, Bool, true, false, ◌||◌, List, [], ◌∷◌, ◌++◌, Option, none, some, CString,
  codes, ltb, ◌==◌, if◌then◌else◌,
}
use sisop_2012_2c.Shared.Int.{ℤ}
use sisop_2012_2c.Shared.Outcome.{Outcome, ok, fault, waits, sem_wait, deref, ◌>>=◌}
use sisop_2012_2c.Commons.{Collections, list_size, list_get, list_remove, queue_pop}
use sisop_2012_2c.Process.{ProcessImage, Msg, Channel, sem_trywait, sem_post, enqueue}
use sisop_2012_2c.Doubles.{Doubles}
use sisop_2012_2c.System.{System}
use sisop_2012_2c.Wire.{DataStream, Incoming, read_stream, read_stream_pri, c_string, serialization}
use sisop_2012_2c.Server.{Received, make_handshake}

-- The loop that `restoreSuspended` and `list_fd_msg_get` share: the last element read, which is NULL
-- or not initialized before the first, and the index where the loop stops.
module _ {A : Type 0} ⦃c : Collections⦄ (fd_of : A → ℕ) where
  pub find_fd : ℕ → ℕ → List A → ℕ → Option A → Outcome (Option A × ℕ)
  find_fd zero i list clientfd last = ok (last, i)
  find_fd (suc rounds) i list clientfd last = do
    element ← deref (list_get list i)
    elim (fd_of element == clientfd) [
      | true ↦ ok (some element, i)
      | false ↦ find_fd rounds (i + 1) list clientfd (some element)
    ]

  pub remove_fd : List A → ℕ → Outcome (Option A × List A)
  unfolding find_fd
  remove_fd list clientfd = do
    (last, i) ← find_fd (list_size list) 0 list clientfd none
    element ← deref last
    if fd_of element == clientfd then ok (list_remove list i) else ok (none, list)

module _ {D : Type 0} ⦃c : Collections⦄ where
  pub restore_suspended :
      List (ProcessImage D) → ℕ → Outcome (Option (ProcessImage D) × List (ProcessImage D))
  restore_suspended = remove_fd (λ p. p.clientfd)

pub list_fd_msg_get : ⦃c : Collections⦄ → List Msg → ℕ → Outcome (Option Msg × List Msg)
list_fd_msg_get = remove_fd (λ m. m.fd)

-- What LTSconex does to a connection.
pub data Action : Type 0 where
  watch close : ℕ → Action
  send : ℕ → ℕ → CString → Action

-- "MMP superado, ejecución demorada", whose ó is two bytes in the source
abbrev pub delayed_text : CString
delayed_text = codes "MMP superado, ejecuci" ++ 0xc3 ∷ 0xb3 ∷ codes "n demorada"

-- One event of epoll_wait. A `connection` is an event of the server's descriptor with what accept and
-- the handshake's recv and send gave; `request` is EPOLLIN of a client, `writable` an event without
-- EPOLLIN, with the result of the send that it may make; `broken` has EPOLLERR, EPOLLHUP or
-- EPOLLRDHUP.
pub data Event : Type 0 where
  broken : ℕ → Event
  connection : ℕ → Received → Bool → Incoming → Event
  request : ℕ → Incoming → Event
  writable : ℕ → Bool → Event

module _ {D : Type 0} ⦃c : Collections⦄ ⦃d : Doubles D⦄ where
  pub new_image : System D → ℕ → ℤ → CString → ProcessImage D
  new_image s clientfd priority code = record {
    clientfd = clientfd;
    pid = s.next_pid;
    priority = priority;
    pc = 0;
    code = code;
    vars = none;
    stack = [];
    tspn = d.of_int s.settings.tant;
  }

  -- The script has been read, and MPS_sem taken: LTS.c from `processImage = malloc` on.
  pub admit : System D → ℕ → ℤ → CString → System D × List Action
  unfolding new_image
  admit s clientfd priority code =
      let image = new_image s clientfd priority code in
      let s' = record s { next_pid = s.next_pid + 1 } in
      elim (sem_trywait s.mmp_sem) [
        | none ↦ (record s' { lfifo = enqueue s.lfifo image }, send clientfd b'N' delayed_text ∷ [])
        | some mmp ↦ (
          record s' {
            mmp_sem = mmp;
            lpn = enqueue s.lpn image;
            sts_in_empty = sem_post s.sts_in_empty;
          },
          send clientfd 0 (codes "Script AnSISOP cargado") ∷ [],
        )
      ]

  -- A message of the first kind: `type` 'N' carries a script; any other does nothing.
  pub receive_script : System D → ℕ → DataStream × ℤ → Outcome (System D × List Action)
  receive_script s clientfd (message, priority) =
      if message.type == b'N'
      then elim (sem_trywait s.mps_sem) [
        | none ↦ ok (s, send clientfd b'F' (codes "MPS superado") ∷ close clientfd ∷ [])
        | some mps ↦ (do
          code ← c_string message.payload
          ok (admit (record s { mps_sem = mps }) clientfd priority code))
      ]
      else ok (s, [])

  connect : System D → ℕ → Incoming → Bool → Outcome (System D × List Action)
  connect s clientfd incoming false = ok (s, close clientfd ∷ [])
  connect s clientfd incoming true = do
    (read, rest) ← read_stream_pri incoming
    elim read [
      | none ↦ ok (s, watch clientfd ∷ close clientfd ∷ [])
      | some message ↦ (do
        (s', actions) ← receive_script s clientfd message
        ok (s', watch clientfd ∷ actions))
    ]

  -- The message of a client that PP knows: type 'R' asks to resume. MMP_sem is taken already.
  pub resume : System D → ℕ → DataStream → Outcome (System D × List Action)
  resume s clientfd message =
      if message.type == b'R'
      then (do
        (found, lps) ← restore_suspended s.lps clientfd
        elim found [
          | none ↦ ok (record s { lps = lps; mmp_sem = sem_post s.mmp_sem }, close clientfd ∷ [])
          | some image ↦ ok (
            record s {
              lps = lps;
              lpr = enqueue s.lpr image;
              sts_in_empty = sem_post s.sts_in_empty;
            },
            [],
          )
        ])
      else ok (s, [])

  read_request : System D → ℕ → Option DataStream → Outcome (System D × List Action)
  read_request s clientfd none = ok (record s { mmp_sem = sem_post s.mmp_sem }, close clientfd ∷ [])
  read_request s clientfd (some message) = resume s clientfd message

  -- EPOLLOUT; `writeStream` serializes the message first.
  pub send_pending : System D → ℕ → Bool → Outcome (System D × List Action)
  unfolding serialization
  send_pending s clientfd sent =
      if ltb 0 (list_size s.sending_list)
      then (do
        (found, rest) ← list_fd_msg_get s.sending_list clientfd
        elim found [
          | none ↦ ok (record s { sending_list = rest }, [])
          | some m ↦ (do
            stream ← serialization m.type m.msg
            ok (
              record s { sending_list = rest },
              send clientfd m.type m.msg ∷ (if sent then [] else close clientfd ∷ []),
            ))
        ])
      else ok (s, [])

  pub lts_event : System D → Event → Outcome (System D × List Action)
  unfolding connect read_request
  lts_event s (broken fd) = ok (s, close fd ∷ [])
  lts_event s (connection fd hello sent incoming) = do
    accepted ← make_handshake hello sent
    connect s fd incoming accepted
  lts_event s (request fd incoming) = elim (sem_trywait s.mmp_sem) [
    | none ↦ ok (s, [])
    | some mmp ↦ (do
      (read, rest) ← read_stream incoming
      read_request (record s { mmp_sem = mmp }) fd read)
  ]
  lts_event s (writable fd sent) = send_pending s fd sent

module _ {D : Type 0} ⦃c : Collections⦄ where
  -- LTSnew, which waits twice: the first wait takes LFIFO_empty.
  pub lts_new_take : System D → Outcome (System D)
  lts_new_take s = if s.lts_new_waits then waits else (do
    n ← sem_wait s.lfifo.empty
    ok (record s { lfifo = record { queue = s.lfifo.queue; empty = n }; lts_new_waits = true }))

  -- The second takes MMP_sem, and the process goes from LFIFO to LPN.
  pub lts_new_admit : System D → Outcome (System D)
  lts_new_admit s =
      if s.lts_new_waits
      then (do
        mmp ← sem_wait s.mmp_sem
        let popped = queue_pop s.lfifo.queue
        image ← deref popped.0
        ok (record s {
          lfifo = record { queue = popped.1; empty = s.lfifo.empty };
          mmp_sem = mmp;
          lpn = enqueue s.lpn image;
          sts_in_empty = sem_post s.sts_in_empty;
          lts_new_waits = false;
        }))
      else waits
