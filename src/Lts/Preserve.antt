-- ===== src/Lts/Preserve.antt =====
-- What LTSconex and LTSnew keep: a property of the state that the changes which their steps are made
-- of keep one by one.
use sisop_2012_2c.Shared.{
  ℕ, ◌+◌, inl, inr, Bool, true, false, List, CString, Option-cases, ◌==◌, ltb,
}
use sisop_2012_2c.Shared.Int.{ℤ}
use sisop_2012_2c.Shared.Outcome.{
  deref, sem_wait, Holds-waits, Holds, Holds-ok, Holds-if, Holds->>=, Holds-after,
}
use sisop_2012_2c.Commons.{Collections, list_size, queue_pop}
use sisop_2012_2c.Doubles.{Doubles}
use sisop_2012_2c.Process.{ProcessImage, enqueue, sem_post, sem_trywait, Msg}
use sisop_2012_2c.System.{System}
use sisop_2012_2c.Wire.{DataStream, Incoming, read_stream, read_stream_pri, c_string, serialization}
use sisop_2012_2c.Server.{make_handshake}
use sisop_2012_2c.Lts.{
  Action, Event, broken, connection, request, writable, new_image, admit, receive_script, connect,
  resume, read_request, send_pending, lts_event, lts_new_take, lts_new_admit, restore_suspended,
  list_fd_msg_get,
}

-- The changes of the state that LTSconex is made of: the counters and lists that no thread waits for
-- as a queue, a process that is delayed, and one that arrives, new or resumed.
pub record IsKeptByLts {D : Type 0} ⦃c : Collections⦄ (P : System D → Type 0) : Type 0 where
  pub counters_kept :
      (s : System D) (mmp mps pid : ℕ) (lps : List (ProcessImage D)) (pending : List Msg)
      → P s
      → P (record s {
        mmp_sem = mmp;
        mps_sem = mps;
        next_pid = pid;
        lps = lps;
        sending_list = pending;
      })
  pub delay_kept :
      (s : System D) (image : ProcessImage D) → P s → P (record s { lfifo = enqueue s.lfifo image })
  pub arrive_new_kept :
      (s : System D) (image : ProcessImage D)
      → P s
      → P (record s { lpn = enqueue s.lpn image; sts_in_empty = sem_post s.sts_in_empty })
  pub arrive_resumed_kept :
      (s : System D) (image : ProcessImage D)
      → P s
      → P (record s { lpr = enqueue s.lpr image; sts_in_empty = sem_post s.sts_in_empty })

module _ {D : Type 0} ⦃c : Collections⦄ ⦃d : Doubles D⦄ (P : System D → Type 0)
    (k : IsKeptByLts P) where
  -- Of a step with its actions.
  abbrev pub StepP : System D × List Action → Type 0
  StepP r = P r.0

  admit-kept :
      (s : System D) (fd : ℕ) (priority : ℤ) (code : CString)
      → P s
      → StepP (admit s fd priority code)
  unfolding admit
  admit-kept s fd priority code h = elim (Option-cases (sem_trywait s.mmp_sem)) [
    | inl full ↦
        rw (full, admit)
          (k.delay_kept _ (new_image s fd priority code)
            (k.counters_kept s s.mmp_sem s.mps_sem (s.next_pid + 1) s.lps s.sending_list h))
    | inr (mmp, free) ↦
        rw (free, admit)
          (k.arrive_new_kept _ (new_image s fd priority code)
            (k.counters_kept s mmp s.mps_sem (s.next_pid + 1) s.lps s.sending_list h))
  ]

  receive_script-kept :
      (s : System D) (fd : ℕ) (message : DataStream) (priority : ℤ)
      → P s
      → Holds StepP (receive_script s fd (message, priority))
  unfolding receive_script
  receive_script-kept s fd message priority h =
      Holds-if (message.type == b'N')
        (λ script. elim (Option-cases (sem_trywait s.mps_sem)) [
          | inl full ↦ rw full (Holds-ok _ h)
          | inr (mps, free) ↦ rw free (
              Holds-after (c_string message.payload) λ code e. Holds-ok _ (
                admit-kept (record s { mps_sem = mps }) fd priority code
                  (k.counters_kept s s.mmp_sem mps s.next_pid s.lps s.sending_list h)))
        ])
        (λ other. Holds-ok _ h)

  connect-kept :
      (s : System D) (fd : ℕ) (bytes : Incoming) (accepted : Bool)
      → P s
      → Holds StepP (connect s fd bytes accepted)
  unfolding connect
  connect-kept s fd bytes false h = Holds-ok _ h
  connect-kept s fd bytes true h = Holds-after (read_stream_pri bytes) λ got e.
      elim (Option-cases got.0) [
        | inl nothing ↦ rw nothing (Holds-ok _ h)
        | inr (message, some_read) ↦ rw some_read (
            Holds->>= StepP (receive_script s fd message)
              (receive_script-kept s fd message.0 message.1 h) λ r k. Holds-ok _ k)
      ]

  resume-kept :
      (s : System D) (fd : ℕ) (message : DataStream) → P s → Holds StepP (resume s fd message)
  unfolding resume
  resume-kept s fd message h =
      Holds-if (message.type == b'R')
        (λ asked. Holds-after (restore_suspended s.lps fd) λ found e. elim (Option-cases found.0) [
          | inl nobody ↦ rw nobody (
              Holds-ok _ (
                k.counters_kept s (sem_post s.mmp_sem) s.mps_sem s.next_pid found.1 s.sending_list
                  h))
          | inr (image, somebody) ↦ rw somebody (
              Holds-ok _ (
                k.arrive_resumed_kept _ image
                  (k.counters_kept s s.mmp_sem s.mps_sem s.next_pid found.1 s.sending_list h)))
        ])
        (λ other. Holds-ok _ h)

  send_pending-kept :
      (s : System D) (fd : ℕ) (sent : Bool) → P s → Holds StepP (send_pending s fd sent)
  unfolding send_pending
  send_pending-kept s fd sent h =
      Holds-if (ltb 0 (list_size s.sending_list))
        (λ pending. Holds-after (list_fd_msg_get s.sending_list fd) λ found e.
          elim (Option-cases found.0) [
            | inl nothing ↦
                rw nothing
                  (Holds-ok _ (k.counters_kept s s.mmp_sem s.mps_sem s.next_pid s.lps found.1 h))
            | inr (m, something) ↦ rw something (
                Holds-after (serialization m.type m.msg) λ stream f.
                  Holds-ok _ (k.counters_kept s s.mmp_sem s.mps_sem s.next_pid s.lps found.1 h))
          ])
        (λ none_pending. Holds-ok _ h)

  -- Whatever the network gives, an event that LTSconex comes through keeps the property.
  pub lts_event-kept : (s : System D) (event : Event) → P s → Holds StepP (lts_event s event)
  unfolding lts_event read_request
  lts_event-kept s (broken fd) h = Holds-ok _ h
  lts_event-kept s (connection fd hello sent bytes) h =
      Holds-after (make_handshake hello sent) λ accepted e. connect-kept s fd bytes accepted h
  lts_event-kept s (request fd bytes) h = elim (Option-cases (sem_trywait s.mmp_sem)) [
    | inl full ↦ rw (full, lts_event) (Holds-ok _ h)
    | inr (mmp, free) ↦
        rw (free, lts_event)
          (Holds-after (read_stream bytes) λ got e. elim (Option-cases got.0) [
            | inl nothing ↦ rw nothing (
                Holds-ok _
                  (k.counters_kept s (sem_post mmp) s.mps_sem s.next_pid s.lps s.sending_list h))
            | inr (message, some_read) ↦ rw some_read (
                resume-kept (record s { mmp_sem = mmp }) fd message
                  (k.counters_kept s mmp s.mps_sem s.next_pid s.lps s.sending_list h))
          ])
  ]
  lts_event-kept s (writable fd sent) h = send_pending-kept s fd sent h

-- The changes of LTSnew.
pub record IsKeptByLtsNew {D : Type 0} ⦃c : Collections⦄ (P : System D → Type 0) : Type 0 where
  pub hold_kept :
      (s : System D) (empty : ℕ)
      → P s
      → P (record s {
        lfifo = record { queue = s.lfifo.queue; empty = empty };
        lts_new_waits = true;
      })
  pub admit_kept :
      (s : System D) (queue : List (ProcessImage D)) (mmp : ℕ) (image : ProcessImage D)
      → P s
      → P (record s {
        lfifo = record { queue = queue; empty = s.lfifo.empty };
        mmp_sem = mmp;
        lpn = enqueue s.lpn image;
        sts_in_empty = sem_post s.sts_in_empty;
        lts_new_waits = false;
      })

module _ {D : Type 0} ⦃c : Collections⦄ (P : System D → Type 0) (k : IsKeptByLtsNew P)
    (s : System D) (h : P s) where
  pub lts_new_take-kept : Holds P (lts_new_take s)
  unfolding lts_new_take
  lts_new_take-kept =
      Holds-if s.lts_new_waits (λ second. Holds-waits)
        (λ first. Holds-after (sem_wait s.lfifo.empty) λ n e. Holds-ok _ (k.hold_kept s n h))

  pub lts_new_admit-kept : Holds P (lts_new_admit s)
  unfolding lts_new_admit
  lts_new_admit-kept =
      Holds-if s.lts_new_waits
        (λ second. Holds-after (sem_wait s.mmp_sem) λ mmp e.
          let popped = queue_pop s.lfifo.queue in
          Holds-after (deref popped.0) λ image f. Holds-ok _ (k.admit_kept s popped.1 mmp image h))
        (λ first. Holds-waits)
