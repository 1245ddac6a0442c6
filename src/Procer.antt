-- ===== src/Procer.antt =====
-- The dispatcher, PROCER/PP/src/PROCER.c: a ready process runs, and what stopped it decides where it
-- goes.
pub mod Retire
pub mod Preserve
pub mod Accounting
pub mod Ready
use sisop_2012_2c.Shared.{
  ℕ, Bool, true, false, ◌&&◌, not, List, [], ◌∷◌, CString, codes, str_eq, map, get_elem?, ◌==◌,
  if◌then◌else◌,
}
use sisop_2012_2c.Shared.Int.{ℤ, pos, eqb_ℤ}
use sisop_2012_2c.Shared.Outcome.{Outcome, ok, sem_wait, deref, ◌>>=◌}
use sisop_2012_2c.Commons.{Collections, Strings, list_add, queue_pop}
use sisop_2012_2c.Process.{ProcessImage, IoProcessing, Channel, Msg, sem_post, enqueue}
use sisop_2012_2c.Doubles.{Doubles}
use sisop_2012_2c.System.{System}
use sisop_2012_2c.Script.{code_segment_creator}
use sisop_2012_2c.Message.{prepare_message}
use sisop_2012_2c.Machine.{Machine}
use sisop_2012_2c.Execution.{process_execution}

module _ {D : Type 0} where
  -- The requests of a process point to its image, so they show what it has become.
  abbrev pub sync_image : ProcessImage D → List (IoProcessing D) → List (IoProcessing D)
  sync_image image =
      map (λ io.
        if io.process_image.pid == image.pid then record io { process_image = image } else io)

module _ {D : Type 0} ⦃d : Doubles D⦄ where
  -- The estimate for SPN: an exponential average with ALFA.
  pub next_tspn : D → D → D → D
  next_tspn alfa tspn rafaga =
      d.add (d.mul tspn alfa) (d.mul rafaga (d.sub (d.of_int (pos 1)) alfa))

module _ {D : Type 0} ⦃c : Collections⦄ where
  abbrev pub post_message : ℕ → ℕ → CString → System D → System D
  post_message fd type text s = record s {
    sending_list = list_add s.sending_list (record { fd = fd; type = type; msg = text });
  }

  -- The process is at its end: the client hears of it, and its places in memory and in the system
  -- are free.
  unfoldable pub finish : ProcessImage D → System D → Outcome (System D)
  finish image s = do
    text ← prepare_message image
    ok (record (post_message image.clientfd b'T' text s) {
      suspend = false;
      mmp_sem = sem_post s.mmp_sem;
      mps_sem = sem_post s.mps_sem;
    })

  -- The process is suspended: its place in memory is free.
  unfoldable pub suspend_process : ProcessImage D → System D → Outcome (System D)
  suspend_process image s = do
    text ← prepare_message image
    ok (record (post_message image.clientfd b'S' text s) {
      suspend = false;
      lps = list_add s.lps image;
      mmp_sem = sem_post s.mmp_sem;
    })

  -- From the `if`s of the dispatcher on, in their order. Without any of them the process is in no
  -- queue any more.
  unfoldable pub retire : List CString → ProcessImage D → Bool → ℕ → System D → Outcome (System D)
  unfolding finish suspend_process str_eq
  retire code image io_block quantum_count s = do
    line ← deref (get_elem? code image.pc)
    if str_eq line (codes "fin_programa")
        then finish image s
        else if io_block
        then ok (record s { suspend = false })
        else if s.suspend
        then suspend_process image s
        else if eqb_ℤ (pos quantum_count) s.settings.quantum
        then ok (record s { lfq = enqueue s.lfq image; sts_in_empty = sem_post s.sts_in_empty })
        else ok s

module _ {D : Type 0} ⦃c : Collections⦄ ⦃s : Strings⦄ ⦃d : Doubles D⦄ where
  -- The machine that runs a process when the dispatcher has taken it out of LPL.
  unfoldable pub start : ProcessImage D → System D → Machine D
  start image sys = record {
    system = record sys { suspend = false };
    image = image;
    io_block = false;
    quantum_count = 0;
    rafaga = d.of_int (pos 0);
    slept = 0;
    checks = 0;
  }

  -- The process after its run: Tspn is averaged, through the pointers of its requests too.
  abbrev pub leave : List CString → Machine D → Outcome (System D)
  leave code m =
      let image = record (m.image) {
        tspn = next_tspn (m.system.settings.alfa) (m.image.tspn) (m.rafaga);
      } in
      let lpb = record (m.system.lpb) { queue = sync_image image (m.system.lpb.queue) } in
      retire code image (m.io_block) (m.quantum_count) (record (m.system) { lpb = lpb })

  -- From the process that was taken out of LPL on.
  abbrev pub dispatch : ℕ → (ℕ → Bool) → ProcessImage D → System D → Outcome (System D)
  dispatch fuel signals image sys = do
    code ← code_segment_creator image.code
    m ← process_execution code signals fuel (start image sys)
    leave code m

  unfoldable pub procer_round : ℕ → (ℕ → Bool) → System D → Outcome (System D)
  unfolding start
  procer_round fuel signals sys = do
    n ← sem_wait sys.lpl.empty
    let popped = queue_pop sys.lpl.queue
    image ← deref popped.0
    dispatch fuel signals image (record sys { lpl = record { queue = popped.1; empty = n } })
