-- ===== src/ExclusiveHost/Tests.antt =====
-- The theorems on evictions at concrete links and histories.
use totem_zmk_config.Prelude.{
  ◌≡◌, refl, arith, true, false, List, [], ◌∷◌, ◌++◌, pos, int_eq, leb, All, take, ◌-◌,
}
use totem_zmk_config.Config.{bg_evict_cap}
use totem_zmk_config.Host.{Conn, Radio}
use totem_zmk_config.ExclusiveHost.{
  Guard, initial, bg_should_ignore, thrash_win_count, count_back, class_a_add,
}
use totem_zmk_config.ExclusiveHost.Evict.{drop_if_non_active_host, exclusive_host_evict_all}
use totem_zmk_config.ExclusiveHost.Evict.Safety.{
  dropped, IsRival, RivalOf, evict-All-RivalOf, rival_drops,
}
use totem_zmk_config.ExclusiveHost.Evict.Whole.{targets, evict-targets}
use totem_zmk_config.ExclusiveHost.Thrash.{IsRing}
use totem_zmk_config.ExclusiveHost.Evict.Cap.{IsCapped}
use totem_zmk_config.ExclusiveHost.Handlers.{on_connected, on_evict_work, profile_changed}
use totem_zmk_config.ExclusiveHost.Handlers.History.{Moment, run, last_time, InOrder}
use totem_zmk_config.ExclusiveHost.Handlers.Capped.{run-IsCapped, initial-IsCapped}
use totem_zmk_config.ExclusiveHost.Handlers.Rest.{run-Spares}
use totem_zmk_config.ExclusiveHost.Handlers.Switch.{rivals, switched-drops}
use totem_zmk_config.ExclusiveHost.Handlers.Suspect.{
  IsDetector, failures, newest3, recent, failures-class_a_add,
}

-- The encrypted link of a computer with profile 1.
abbrev other_pc : Conn
other_pc = record {
  info_ok = true;
  peripheral = true;
  connected = true;
  idx = pos 1;
  security = 2;
  disconnect_err = pos 0;
}

-- Profile 0 is selected and linked, with no cable.
abbrev on_air : Radio
on_air = record {
  hid_is_usb = false;
  cable_up = false;
  adv_suppressed = false;
  active = pos 0;
  is_open = false;
  is_connected = true;
}

-- Five profiles; profile 0 was selected before.
abbrev settled : Guard
settled = record (initial 5) { last_active_profile = pos 0 }

-- Profile 2 was selected before.
abbrev elsewhere : Guard
elsewhere = record (initial 5) { last_active_profile = pos 2 }

abbrev history : List Moment
history =
    record { now = 1000; radio = on_air; signal = on_connected other_pc 0 }
    ∷ record { now = 3000; radio = on_air; signal = on_evict_work (other_pc ∷ []) }
    ∷ []

other_pc-IsRival : IsRival on_air other_pc
other_pc-IsRival = record {
  readable = refl;
  computer = refl;
  known = refl;
  other = refl;
  not_usb = refl;
  no_cable = refl;
  bonded = refl;
  linked = refl;
}

not_resting : bg_should_ignore 900 (pos 1) settled ≡ false
unfolding bg_should_ignore
not_resting = refl

not_capped : leb bg_evict_cap (thrash_win_count 900 settled) ≡ false
unfolding thrash_win_count count_back
not_capped = refl

evict-All-RivalOf_example :
    All
      (RivalOf 21 900 on_air (other_pc ∷ []))
      (dropped (exclusive_host_evict_all 21 900 on_air false (other_pc ∷ []) settled).1)
evict-All-RivalOf_example = evict-All-RivalOf 21 900 on_air (other_pc ∷ []) settled

-- The link of a computer with profile 2.
abbrev third_pc : Conn
third_pc = record other_pc { idx = pos 2 }

settled-IsRing : IsRing settled
settled-IsRing = record { storage = refl; head_in = omega arith; count_in = omega arith }

evict-targets_example :
    dropped (exclusive_host_evict_all 21 900 on_air false (other_pc ∷ third_pc ∷ []) settled).1
    ≡ take
        (bg_evict_cap - thrash_win_count 900 settled)
        (targets 900 on_air settled (other_pc ∷ third_pc ∷ []))
evict-targets_example =
    evict-targets 21 900 on_air (other_pc ∷ third_pc ∷ []) settled settled-IsRing
      ((refl, tt), (tt, tt)) (refl, (refl, tt))

history-InOrder : InOrder 21 true 900 history
unfolding InOrder
history-InOrder = (omega arith, (omega arith, tt))

run-IsCapped_example : IsCapped (last_time 21 true 900 history) (run 21 true history (initial 5)).0
run-IsCapped_example =
    run-IsCapped 21 true 900 history (initial 5) history-InOrder (initial-IsCapped 900 5)

run-Spares_example :
    All
      (λ j. int_eq j (pos 1) ≡ false)
      (dropped
        (run 21 true history (drop_if_non_active_host 21 900 on_air false other_pc settled).0).1)
run-Spares_example =
    run-Spares 21 true 900 on_air other_pc settled history
      (rival_drops 21 900 on_air other_pc settled other_pc-IsRival not_resting not_capped) refl
      (omega arith) refl history-InOrder ((refl, omega arith), ((refl, omega arith), tt))

elsewhere-IsRing : IsRing elsewhere
elsewhere-IsRing = record { storage = refl; head_in = omega arith; count_in = omega arith }

switched-drops_example :
    dropped
      (exclusive_host_evict_all 21 1000 on_air false
        (other_pc ∷ third_pc ∷ [])
        (profile_changed true 900 on_air elsewhere).0).1
    ≡ take bg_evict_cap (rivals on_air (other_pc ∷ third_pc ∷ []))
switched-drops_example =
    switched-drops 21 true 900 1000 on_air on_air (other_pc ∷ third_pc ∷ []) elsewhere
      elsewhere-IsRing refl refl ((refl, tt), (tt, tt)) (refl, (refl, tt))

-- Both computers are rivals.
both_rivals : rivals on_air (other_pc ∷ third_pc ∷ []) ≡ pos 1 ∷ pos 2 ∷ []
both_rivals = refl

initial-IsDetector : IsDetector (initial 5)
initial-IsDetector = record { storage = refl; count_in = omega arith }

failures-class_a_add_example :
    IsDetector (class_a_add 900 (initial 5))
    × (failures (class_a_add 900 (initial 5))
        ≡ newest3 (recent 900 (failures (initial 5)) ++ 900 ∷ []))
failures-class_a_add_example = failures-class_a_add 900 (initial 5) initial-IsDetector
