-- ===== src/Timing/Tests.antt =====
-- The theorems on the inbox at concrete records.
use totem_zmk_config.Prelude.{
  ◌+◌, ◌≤◌, ◌≡◌, arith, List, [], ◌∷◌, ◌++◌, pos, ℕ, true, map, length-replicate,
}
use totem_zmk_config.Hevt.{Hevt}
use totem_zmk_config.Timing.{TimingRecord, initial, totem_diagnostic_timing_capture, drain_round}
use totem_zmk_config.Timing.Fifo.{contents, initial-IsInbox}
use totem_zmk_config.Timing.Interleave.{
  Op, capture, drain, accepted, after, refused, reported, ops-refused,
}
use totem_zmk_config.Config.{ring_cap}
use totem_zmk_config.Event.{event, zero_event}
use totem_zmk_config.Journal
use totem_zmk_config.Journal.{ring_get_ordered}
use totem_zmk_config.Journal.Ordered.{IsWf}
use totem_zmk_config.Journal.Record.{Call, events, latest}
use totem_zmk_config.Timing.Delivery
use totem_zmk_config.Timing.Delivery.{
  Happening, captured, drained, recorded, deliver, rows, call_of, queued_rows, timing_event,
  deliver-queued,
}

abbrev one : TimingRecord
one = record {
  uptime_ms = 700;
  type = Hevt.flash_begin;
  idx = pos 0;
  active = pos 0;
  reason = 1;
  pair = 0;
  extra = 0;
}

abbrev ops : List Op
ops = capture one ∷ drain 800 ∷ capture one ∷ drain 900 ∷ drain 900 ∷ []

abbrev connected_at : ℕ → Call
connected_at now = (event now Hevt.conn (pos 0) (pos 0) 0 0 0, true, now)

-- A row of another module comes between the capture of a record and the round that passes it on.
abbrev mixed : List Happening
mixed = captured one ∷ recorded (connected_at 750) ∷ captured one ∷ drained 800 ∷ []

journal-IsWf : IsWf Journal.initial
journal-IsWf = record {
  storage = length-replicate ring_cap zero_event;
  head_in = omega arith;
  count_in = omega arith;
}

deliver-queued_example :
    let (s', l') = deliver mixed (initial, Journal.initial) in
    (ring_get_ordered l'
      ≡ latest (ring_get_ordered Journal.initial ++ events (map call_of (rows mixed initial))))
    × (map timing_event (contents initial ++ accepted (Delivery.ops mixed) initial)
        ≡ queued_rows (rows mixed initial) ++ map timing_event (contents s'))
deliver-queued_example = deliver-queued mixed initial Journal.initial initial-IsInbox journal-IsWf

few_refused : refused ops initial + initial.timing_dropped ≤ 255
unfolding refused totem_diagnostic_timing_capture drain_round
few_refused = omega arith

ops-refused_example :
    refused ops initial + initial.timing_dropped
    ≡ reported ops initial + (after ops initial).timing_dropped
ops-refused_example = ops-refused ops initial few_refused
