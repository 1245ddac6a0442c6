-- ===== src/Sts/Queues.antt =====
-- The four incoming queues by name, and what it is to empty one of them.
use sisop_2012_2c.Shared.{◌-◌, ◌≡◌, refl, ◌≢◌, List, [], CString, codes, length}
use sisop_2012_2c.Shared.Int.{ℤ}
use sisop_2012_2c.Process.{ProcessImage, Channel, IsCounted, counted}
use sisop_2012_2c.System.{System, QueueEntry}

-- The names PLPN, PLPR, PLFQ and PLFIO of the queues array.
pub data Origin : Type 0 where
  new resumed end_of_quantum end_of_io : Origin

abbrev pub name_of : Origin → CString
name_of new = codes "PLPN"
name_of resumed = codes "PLPR"
name_of end_of_quantum = codes "PLFQ"
name_of end_of_io = codes "PLFIO"

abbrev pub entry : Origin → ℤ → QueueEntry
entry o p = record { priority = p; name = name_of o }

module _ {D : Type 0} where
  abbrev pub channel_of : Origin → System D → Channel (ProcessImage D)
  channel_of new s = s.lpn
  channel_of resumed s = s.lpr
  channel_of end_of_quantum s = s.lfq
  channel_of end_of_io s = s.lfio

  abbrev pub queue_of : Origin → System D → List (ProcessImage D)
  queue_of o s = (channel_of o s).queue

  -- The queue is empty, and STS_in_empty has gone down by what it held.
  abbrev pub drained : Origin → System D → System D
  drained new s = record s { lpn = counted []; sts_in_empty = s.sts_in_empty - length s.lpn.queue }
  drained resumed s = record s {
    lpr = counted [];
    sts_in_empty = s.sts_in_empty - length s.lpr.queue;
  }
  drained end_of_quantum s = record s {
    lfq = counted [];
    sts_in_empty = s.sts_in_empty - length s.lfq.queue;
  }
  drained end_of_io s = record s {
    lfio = counted [];
    sts_in_empty = s.sts_in_empty - length s.lfio.queue;
  }

  -- The semaphores of the four queues count them.
  abbrev pub QueuesCounted : System D → Type 0
  QueuesCounted s = (o : Origin) → IsCounted (channel_of o s)

  pub drained-QueuesCounted :
      (o : Origin) (s : System D) → QueuesCounted s → QueuesCounted (drained o s)
  drained-QueuesCounted new s h = elim [
    | new ↦ refl
    | resumed ↦ h resumed
    | end_of_quantum ↦ h end_of_quantum
    | end_of_io ↦ h end_of_io
  ]
  drained-QueuesCounted resumed s h = elim [
    | new ↦ h new
    | resumed ↦ refl
    | end_of_quantum ↦ h end_of_quantum
    | end_of_io ↦ h end_of_io
  ]
  drained-QueuesCounted end_of_quantum s h = elim [
    | new ↦ h new
    | resumed ↦ h resumed
    | end_of_quantum ↦ refl
    | end_of_io ↦ h end_of_io
  ]
  drained-QueuesCounted end_of_io s h = elim [
    | new ↦ h new
    | resumed ↦ h resumed
    | end_of_quantum ↦ h end_of_quantum
    | end_of_io ↦ refl
  ]

  -- Draining one queue leaves another as it is.
  pub queue_of-drained :
      (o p : Origin) (s : System D) → p ≢ o → queue_of p (drained o s) ≡ queue_of p s
  queue_of-drained new new s h = absurd (h refl)
  queue_of-drained resumed resumed s h = absurd (h refl)
  queue_of-drained end_of_quantum end_of_quantum s h = absurd (h refl)
  queue_of-drained end_of_io end_of_io s h = absurd (h refl)
  queue_of-drained new resumed s h = refl
  queue_of-drained new end_of_quantum s h = refl
  queue_of-drained new end_of_io s h = refl
  queue_of-drained resumed new s h = refl
  queue_of-drained resumed end_of_quantum s h = refl
  queue_of-drained resumed end_of_io s h = refl
  queue_of-drained end_of_quantum new s h = refl
  queue_of-drained end_of_quantum resumed s h = refl
  queue_of-drained end_of_quantum end_of_io s h = refl
  queue_of-drained end_of_io new s h = refl
  queue_of-drained end_of_io resumed s h = refl
  queue_of-drained end_of_io end_of_quantum s h = refl
