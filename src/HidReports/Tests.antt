-- ===== src/HidReports/Tests.antt =====
-- The theorems on the counters of reports at concrete calls.
use totem_zmk_config.Prelude.{◌+◌, ◌≤◌, false, true, List, [], ◌∷◌, pos, bool_to_nat}
use totem_zmk_config.HidReports.{Worker, Report, no_host_drop, dequeued}
use totem_zmk_config.HidReports.Fate.{Op, get, find_conn, observe, notify, run, tally, run-drops}

abbrev resting : Worker
resting = record {
  dequeued_report = false;
  all_up_report = false;
  keyboard_notify = false;
  notify_profile = pos 0;
}

abbrev key_a : Report
key_a = record { modifiers = 0; keys = 4 ∷ [] }

-- A report that reaches its computer, and one that does not.
abbrev ops : List Op
ops =
    get (pos 0) true key_a (pos 0)
    ∷ observe (pos 0) true
    ∷ notify true (pos 0)
    ∷ get (pos 0) true key_a (pos 0)
    ∷ find_conn (pos 0) true false
    ∷ []

run-drops_example :
    tally no_host_drop (run ops resting).1 + bool_to_nat (run ops resting).0.dequeued_report
    ≤ tally dequeued (run ops resting).1 + 0
run-drops_example = run-drops ops resting
