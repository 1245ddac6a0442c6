-- ===== src/Lts/Ready.antt =====
-- The long term scheduler does not touch LPL.
use sisop_2012_2c.Shared.Outcome.{Holds}
use sisop_2012_2c.Commons.{Collections}
use sisop_2012_2c.Doubles.{Doubles}
use sisop_2012_2c.Process.{ProcessImage, Channel}
use sisop_2012_2c.System.{System, Settings}
use sisop_2012_2c.System.Ready.{Unmoved}
use sisop_2012_2c.Lts.{Event, lts_event, lts_new_take, lts_new_admit}
use sisop_2012_2c.Lts.Preserve.{
  IsKeptByLts, lts_event-kept, IsKeptByLtsNew, lts_new_take-kept, lts_new_admit-kept,
}

module _ {D : Type 0} ⦃c : Collections⦄ (ready : Channel (ProcessImage D)) (t : Settings D) where
  Unmoved-IsKeptByLts : IsKeptByLts (Unmoved ready t)
  Unmoved-IsKeptByLts = record {
    counters_kept = λ s mmp mps pid lps pending h. h;
    delay_kept = λ s image h. h;
    arrive_new_kept = λ s image h. h;
    arrive_resumed_kept = λ s image h. h;
  }

  pub lts_event-Unmoved :
      ⦃d : Doubles D⦄ (s : System D) (event : Event)
      → Unmoved ready t s
      → Holds (λ r. Unmoved ready t r.0) (lts_event s event)
  lts_event-Unmoved = lts_event-kept (Unmoved ready t) Unmoved-IsKeptByLts

  Unmoved-IsKeptByLtsNew : IsKeptByLtsNew (Unmoved ready t)
  Unmoved-IsKeptByLtsNew = record {
    hold_kept = λ s empty h. h;
    admit_kept = λ s queue mmp image h. h;
  }

  pub lts_new_take-Unmoved :
      (s : System D) → Unmoved ready t s → Holds (Unmoved ready t) (lts_new_take s)
  lts_new_take-Unmoved = lts_new_take-kept (Unmoved ready t) Unmoved-IsKeptByLtsNew

  pub lts_new_admit-Unmoved :
      (s : System D) → Unmoved ready t s → Holds (Unmoved ready t) (lts_new_admit s)
  lts_new_admit-Unmoved = lts_new_admit-kept (Unmoved ready t) Unmoved-IsKeptByLtsNew
