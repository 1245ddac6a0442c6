-- ===== src/Procer/Retire.antt =====
-- Where a process goes when its run has ended.
use sisop_2012_2c.Shared.{ℕ, ◌≡◌, Bool, true, false, List, CString, some}
use sisop_2012_2c.Shared.Outcome.{ok}
use sisop_2012_2c.Commons.{Collections, Strings, list_add, queue_pop}
use sisop_2012_2c.Process.{ProcessImage, sem_post, enqueue}
use sisop_2012_2c.Doubles.{Doubles}
use sisop_2012_2c.System.{System}
use sisop_2012_2c.Script.{code_segment_creator}
use sisop_2012_2c.Message.{prepare_message}
use sisop_2012_2c.Machine.{Machine}
use sisop_2012_2c.Execution.{process_execution}
use sisop_2012_2c.Procer.{post_message, sync_image, next_tspn, start}

-- The four ends of a run that leaves this image and this system: its client hears that it has ended,
-- and its places in memory and in the system are free; an I/O thread has it; its client hears that it
-- is suspended, it is in LPS, and its place in memory is free; it is in LFQ, and STS is told.
pub data Retired {D : Type 0} ⦃c : Collections⦄ (image : ProcessImage D) (io_block : Bool)
    (s : System D) : System D → Type 0 where
  finished :
      (text : CString)
      → prepare_message image ≡ ok text
      → Retired image io_block s (record (post_message image.clientfd b'T' text s) {
        suspend = false;
        mmp_sem = sem_post s.mmp_sem;
        mps_sem = sem_post s.mps_sem;
      })
  blocked : io_block ≡ true → Retired image io_block s (record s { suspend = false })
  suspended :
      (text : CString)
      → prepare_message image ≡ ok text
      → s.suspend ≡ true
      → Retired image io_block s (record (post_message image.clientfd b'S' text s) {
        suspend = false;
        lps = list_add s.lps image;
        mmp_sem = sem_post s.mmp_sem;
      })
  preempted :
      Retired image io_block s
        (record s { lfq = enqueue s.lfq image; sts_in_empty = sem_post s.sts_in_empty })

module _ {D : Type 0} ⦃c : Collections⦄ ⦃st : Strings⦄ ⦃d : Doubles D⦄ where
  -- What the dispatcher gives over to the four ends when the run of the process that it has taken out
  -- of LPL is this machine.
  pub data RoundEnds (signals : ℕ → Bool) (fuel : ℕ) (sys s' : System D) : Type 0 where
    ended :
        (image : ProcessImage D) (code : List CString) (taken : System D) (m : Machine D)
        → (queue_pop sys.lpl.queue).0 ≡ some image
        → code_segment_creator image.code ≡ ok code
        → process_execution code signals fuel (start image taken) ≡ ok m
        → Retired
            (record (m.image) { tspn = next_tspn m.system.settings.alfa m.image.tspn m.rafaga })
            m.io_block
            (record (m.system) {
              lpb = record (m.system.lpb) {
                queue =
                    sync_image
                      (record (m.image) {
                        tspn = next_tspn m.system.settings.alfa m.image.tspn m.rafaga;
                      })
                      m.system.lpb.queue;
              };
            })
            s'
        → RoundEnds signals fuel sys s'
