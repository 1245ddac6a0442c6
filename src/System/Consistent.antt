-- ===== src/System/Consistent.antt =====
-- The agreement of the queues with the semaphores that the threads wait for.
use sisop_2012_2c.Shared.{ℕ, ◌+◌, ◌≡◌, List, length, if◌then◌else◌, arith}
use sisop_2012_2c.Commons.{Collections}
use sisop_2012_2c.Process.{
  ProcessImage, IsCounted, sem_post, enqueue, enqueue-IsCounted, length-enqueue,
}
use sisop_2012_2c.System.{System, QueueEntry}

module _ {D : Type 0} where
  -- What the four incoming queues hold.
  abbrev pub incoming : System D → ℕ
  incoming s = length s.lpn.queue + length s.lpr.queue + length s.lfq.queue + length s.lfio.queue

  -- LFIFO_empty, with what LTSnew has taken of it.
  abbrev pub delayed : System D → ℕ
  delayed s = s.lfifo.empty + (if s.lts_new_waits then 1 else 0)

  -- The queues array is this one; the semaphore of each queue counts it, that of LFIFO together with
  -- what LTSnew holds; and STS_in_empty counts the four incoming queues.
  abbrev pub IsConsistent : List QueueEntry → System D → Type 0
  IsConsistent array s =
      (s.settings.queues_array ≡ array)
      × IsCounted s.lpn
      × IsCounted s.lpr
      × IsCounted s.lfq
      × IsCounted s.lfio
      × IsCounted s.lpl
      × IsCounted s.lpb
      × (delayed s ≡ length s.lfifo.queue)
      × (s.sts_in_empty ≡ incoming s)

module _ {D : Type 0} ⦃c : Collections⦄ (array : List QueueEntry) (s : System D)
    (image : ProcessImage D) where
  -- A process that a thread puts in an incoming queue, and tells STS of.
  pub arrive_new-IsConsistent :
      IsConsistent array s
      → IsConsistent array
          (record s { lpn = enqueue s.lpn image; sts_in_empty = sem_post s.sts_in_empty })
  arrive_new-IsConsistent (settings, lpn, lpr, lfq, lfio, lpl, lpb, lfifo, sts) = (
    settings,
    enqueue-IsCounted s.lpn image lpn,
    lpr,
    lfq,
    lfio,
    lpl,
    lpb,
    lfifo,
    omega (arith, sts, length-enqueue s.lpn image),
  )

  pub arrive_resumed-IsConsistent :
      IsConsistent array s
      → IsConsistent array
          (record s { lpr = enqueue s.lpr image; sts_in_empty = sem_post s.sts_in_empty })
  arrive_resumed-IsConsistent (settings, lpn, lpr, lfq, lfio, lpl, lpb, lfifo, sts) = (
    settings,
    lpn,
    enqueue-IsCounted s.lpr image lpr,
    lfq,
    lfio,
    lpl,
    lpb,
    lfifo,
    omega (arith, sts, length-enqueue s.lpr image),
  )

  pub arrive_quantum-IsConsistent :
      IsConsistent array s
      → IsConsistent array
          (record s { lfq = enqueue s.lfq image; sts_in_empty = sem_post s.sts_in_empty })
  arrive_quantum-IsConsistent (settings, lpn, lpr, lfq, lfio, lpl, lpb, lfifo, sts) = (
    settings,
    lpn,
    lpr,
    enqueue-IsCounted s.lfq image lfq,
    lfio,
    lpl,
    lpb,
    lfifo,
    omega (arith, sts, length-enqueue s.lfq image),
  )

  pub arrive_io-IsConsistent :
      IsConsistent array s
      → IsConsistent array
          (record s { lfio = enqueue s.lfio image; sts_in_empty = sem_post s.sts_in_empty })
  arrive_io-IsConsistent (settings, lpn, lpr, lfq, lfio, lpl, lpb, lfifo, sts) = (
    settings,
    lpn,
    lpr,
    lfq,
    enqueue-IsCounted s.lfio image lfio,
    lpl,
    lpb,
    lfifo,
    omega (arith, sts, length-enqueue s.lfio image),
  )

  -- A process that waits for memory.
  pub delay-IsConsistent :
      IsConsistent array s → IsConsistent array (record s { lfifo = enqueue s.lfifo image })
  unfolding enqueue
  delay-IsConsistent (settings, lpn, lpr, lfq, lfio, lpl, lpb, lfifo, sts) = (
    settings,
    lpn,
    lpr,
    lfq,
    lfio,
    lpl,
    lpb,
    omega (arith, lfifo, length-enqueue s.lfifo image),
    sts,
  )
