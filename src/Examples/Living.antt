-- ===== src/Examples/Living.antt =====
-- A life of PP: the start with a file that says PRI, a client, and a reading that turns to FIFO.
use sisop_2012_2c.Shared.{ℕ, ◌≡◌, [], CString, codes, str_eq, if◌then◌else◌, arith}
use sisop_2012_2c.Shared.Int.{ℤ, pos}
use sisop_2012_2c.Shared.Outcome.{ok}
use sisop_2012_2c.System.{System}
use sisop_2012_2c.Config.{Config, configuration_reader}
use sisop_2012_2c.Config.Accounting.{IsSound, configuration_reader-IsSound}
use sisop_2012_2c.Lts.Admission.{decision, connection-admits}
use sisop_2012_2c.Threads.{lts_conex, Lives, started, stepped}
use sisop_2012_2c.Threads.Lifetime.{start_system-starts, lives-IsSound}
use sisop_2012_2c.Examples.Values.{
  lists, strings, doubles, settings, short_script, short_script-IsText,
}

-- Every number is 3 but the priority of PLFIO.
abbrev numbers : CString → ℤ
numbers key = if str_eq key (codes "PLFIO") then pos 1 else pos 3

abbrev at_start : Config ℕ
at_start = record { alg = codes "PRI"; int_value = numbers; alfa = 0 }

abbrev later : Config ℕ
later = record { alg = codes "FIFO"; int_value = numbers; alfa = 0 }

abbrev first : System ℕ
first = (start_system-starts at_start settings).0

first-IsSound : IsSound first
first-IsSound = (start_system-starts at_start settings).2

-- A script of a client comes, and then the file is changed.
abbrev connected : System ℕ
connected = (decision first 7 short_script (pos 2) first.mps_sem first.mmp_sem).0

connected-Lives : Lives at_start settings connected
connected-Lives = stepped (started (start_system-starts at_start settings).1) (
    lts_conex _ _
      (connection-admits first 7 short_script (pos 2) [] (omega arith) short_script-IsText
        (omega arith)).2)

abbrev turned : (s' : System ℕ) × (configuration_reader later connected ≡ ok s') × IsSound s'
turned =
    configuration_reader-IsSound later connected
      (lives-IsSound at_start settings connected connected-Lives)
