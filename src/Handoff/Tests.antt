-- ===== src/Handoff/Tests.antt =====
-- The theorems on the counters at concrete events.
use totem_zmk_config.Prelude.{arith, true, false, List, [], ◌∷◌}
use totem_zmk_config.Handoff.{RadioStats, EventDone, arm, zero_radio}
use totem_zmk_config.Handoff.Counts.{
  Done, Counted, total, bad_one, aborted_one, packets, events_of, done_all, done_all-Counted,
}

-- An event whose packet has a wrong CRC.
abbrev noisy : EventDone
noisy = record {
  peripheral = true;
  crc_valid = false;
  is_aborted = false;
  trx_cnt = 1;
  mic_is_pass = false;
  mic_is_fail = false;
  lazy_prepare = 0;
  latency_event = 0;
  is_must_expire = false;
}

abbrev two_noisy : List Done
two_noisy = record { at = 100; event = noisy } ∷ record { at = 130; event = noisy } ∷ []

done_all-Counted_example :
    Counted 2
      (total bad_one (events_of two_noisy))
      (total aborted_one (events_of two_noisy))
      (total packets (events_of two_noisy))
      (done_all two_noisy (arm zero_radio))
done_all-Counted_example = done_all-Counted two_noisy zero_radio (omega arith, (omega arith, tt))

abbrev one_armed : List RadioStats
one_armed = record zero_radio { armed = true } ∷ zero_radio ∷ []
