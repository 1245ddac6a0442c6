-- ===== src/Examples/Watching.antt =====
-- The loop over the events of inotify at two changes of pp.config and one of another file.
use sisop_2012_2c.Shared.{
  ℕ, ◌≡◌, refl, inr, List, [], ◌∷◌, ◌++◌, CString, codes, some, arith, length, drop,
}
use sisop_2012_2c.Shared.Int.{pos}
use sisop_2012_2c.Shared.Outcome.{ok, ◌>>=◌}
use sisop_2012_2c.Config.{Config}
use sisop_2012_2c.Config.Events.{configure_round, reload_config}
use sisop_2012_2c.Config.Events.Walk.{
  InotifyEvent, IsEvent, all_bytes, reload_for, configure_round-reload_for,
}
use sisop_2012_2c.Examples.Values.{lists, doubles, busy}

-- A modification of a file in the directory.
abbrev modified : CString → InotifyEvent
modified name = record { wd = 1; mask = 2; cookie = 0; name = name; padding = 7 }

abbrev events : List InotifyEvent
events =
    modified (codes "pp.config") ∷ modified (codes "PP.log") ∷ modified (codes "pp.config") ∷ []

pp_config-IsEvent : IsEvent (modified (codes "pp.config"))
pp_config-IsEvent = record {
  mask_lt = omega arith;
  length_lt = omega arith;
  name_text = omega arith;
  name_fits = omega arith;
  ended = inr (6, refl);
}

pp_log-IsEvent : IsEvent (modified (codes "PP.log"))
pp_log-IsEvent = record {
  mask_lt = omega arith;
  length_lt = omega arith;
  name_text = omega arith;
  name_fits = omega arith;
  ended = inr (6, refl);
}

-- The readings of pp.config, in each of which the algorithm is FIFO.
abbrev configs : ℕ → Config ℕ
configs n = record { alg = codes "FIFO"; int_value = λ key. pos n; alfa = 0 }

configure_round-reload_for_example :
    configure_round (reload_config configs) (some (all_bytes events)) ([], (1, busy)) ≡ (do
      s' ← reload_for (reload_config configs) events (1, busy)
      ok (all_bytes events ++ drop (length (all_bytes events)) [], s'))
configure_round-reload_for_example =
    configure_round-reload_for (reload_config configs) events [] (1, busy)
      (pp_config-IsEvent, (pp_log-IsEvent, (pp_config-IsEvent, _)))
