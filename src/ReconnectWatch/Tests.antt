-- ===== src/ReconnectWatch/Tests.antt =====
-- The theorems on the ladder at concrete states.
use totem_zmk_config.Prelude.{
  ℕ, ◌≤◌, ◌≡◌, arith, List, refl, true, false, [], ◌∷◌, none, some, pos, All, bool_to_nat, int_eq,
}
use totem_zmk_config.Host.{Conn, Radio}
use totem_zmk_config.ReconnectWatch.{
  Watch, initial, step_none, step_evict, is_none, reconnect_watch_work_handler,
}
use totem_zmk_config.ReconnectWatch.Ladder.{
  IsArmed, is_idle, handle, on_timer, on_connected, handle-IsArmed,
}
use totem_zmk_config.ReconnectWatch.Rest.{Moment, run, count_fires, run-rest}
use totem_zmk_config.ReconnectWatch.References.{work_refs, taken, given, taken-work_refs}
use totem_zmk_config.ReconnectWatch.Safety.{StrayOf, IsDown, is_active_link, dropped, work-StrayOf}

-- Profile 0 is selected and not linked; profile 1 is.
abbrev stray : Conn
stray = record {
  info_ok = true;
  peripheral = true;
  connected = true;
  idx = pos 1;
  security = 2;
  disconnect_err = pos 0;
}

abbrev off_air : Radio
off_air = record {
  hid_is_usb = false;
  cable_up = false;
  adv_suppressed = false;
  active = pos 0;
  is_open = false;
  is_connected = false;
}

-- The ladder waits for its second step.
abbrev second_step : Watch
second_step = record initial { next_step = step_evict; timer = some 8 }

second_step-IsArmed : IsArmed second_step
unfolding is_none is_idle
second_step-IsArmed = refl

abbrev at_time : ℕ → Moment
at_time now = record { now = now; radio = off_air; signal = on_timer (stray ∷ []) }

-- A connection that fails comes between the runs.
abbrev moments : List Moment
moments =
    at_time 8000
    ∷ record { now = 9000; radio = off_air; signal = on_connected 4 }
    ∷ at_time 16000
    ∷ at_time 24000
    ∷ []

three_fires : 3 ≤ count_fires moments
unfolding count_fires
three_fires = omega arith

handle-IsArmed_example : IsArmed (handle true 8000 off_air (on_timer (stray ∷ [])) second_step)
handle-IsArmed_example =
    handle-IsArmed true 8000 off_air (on_timer (stray ∷ [])) second_step second_step-IsArmed

run-rest_example :
    let s' = run true moments second_step in (s'.next_step ≡ step_none) × (s'.timer ≡ none)
run-rest_example =
    run-rest true moments second_step second_step-IsArmed (refl, (refl, (refl, (refl, tt))))
      three_fires

work-StrayOf_example :
    All
      (λ i.
        StrayOf (pos 0) (stray ∷ []) i
        × IsDown off_air (stray ∷ []) second_step
        × All (λ c. is_active_link (pos 0) c ≡ false) (stray ∷ []))
      (dropped (reconnect_watch_work_handler 8000 off_air (stray ∷ []) second_step).1)
work-StrayOf_example = work-StrayOf 8000 off_air (stray ∷ []) second_step

-- One reference more for each connection of profile 1.
abbrev is_stray : Conn → ℕ
is_stray c = bool_to_nat (int_eq c.idx (pos 1))

taken-work_refs_example :
    taken is_stray (work_refs off_air (stray ∷ []))
    ≡ given is_stray (work_refs off_air (stray ∷ []))
taken-work_refs_example = taken-work_refs is_stray off_air (stray ∷ [])
