-- ===== src/Journal/Reboot/Tests.antt =====
-- The theorem on resets at a concrete history.
use totem_zmk_config.Prelude.{
  take, ◌++◌, ℕ, ◌+◌, ◌≡◌, ◌≤◌, arith, true, List, [], ◌∷◌, ℤ, pos, minus_one,
}
use totem_zmk_config.Hevt.{Hevt}
use totem_zmk_config.Event.{event}
use totem_zmk_config.Boot
use totem_zmk_config.Journal.{Log, initial}
use totem_zmk_config.Journal.Layout.{Payload}
use totem_zmk_config.Journal.Record.{Call, record_all, events, latest}
use totem_zmk_config.Journal.Persist.{Env}
use totem_zmk_config.Journal.Reboot.{Flash, Op, recording, saving, reset, load, run, fresh}
use totem_zmk_config.Journal.Dump.Complete.{details, ring_details}
use totem_zmk_config.Journal.Restore.{resume}
use totem_zmk_config.Config.{journal_slots}
use mathlib.Core.List.{reverse}
use totem_zmk_config.Journal.Reboot.Shown.{all_details}
use totem_zmk_config.Journal.Reboot.History.{written}
use totem_zmk_config.Journal.Reboot.Dumped.{details-run}
use totem_zmk_config.Journal.Reboot.Order.{SameBlocks-refl}
use totem_zmk_config.Journal.Reboot.Recovery.{load-run}

abbrev connected_at : ℕ → Call
connected_at now = (event now Hevt.conn (pos 0) (pos 0) 0 0 0, true, now)

-- A stand-in for the checksum.
abbrev number_crc : Payload → ℕ
number_crc p = p.count + p.journal_seq

abbrev write_at : ℕ → ℤ → Env
write_at now err = record {
  now = now;
  counter_err = pos 0;
  err = err;
  meanwhile = λ s. s;
  done = now + 20;
  later = now + 20;
}

-- Two writes whose results are 0, with an event during the first and a reset between them, and one
-- whose result is an error.
abbrev history : List Op
history =
    recording (connected_at 5000 ∷ [])
    ∷ saving (write_at 6000 (pos 0)) (Boot.initial 0 0) (connected_at 6010 ∷ [])
    ∷ reset (connected_at 100 ∷ [])
    ∷ saving (write_at 7000 (pos 0)) (Boot.initial 0 0) []
    ∷ recording (connected_at 9000 ∷ [])
    ∷ saving (write_at 900000 minus_one) (Boot.initial 0 0) []
    ∷ []

abbrev after : Log × Flash
after = run number_crc history fresh

load-run_example :
    let t = load number_crc after.1 (record_all (connected_at 50 ∷ []) initial) in
    (t.persisted_event_seq ≡ after.0.persisted_event_seq)
    × (t.next_slot ≡ after.0.next_slot)
    × (t.journal_seq ≤ after.0.journal_seq)
load-run_example =
    load-run number_crc history (connected_at 50 ∷ []) after.1 (omega arith) (omega arith)
      (omega arith) (SameBlocks-refl after.1)

details-run_example :
    details (resume (load number_crc after.1 (record_all (connected_at 50 ∷ []) initial)))
    ≡ all_details (reverse (take journal_slots (written number_crc history fresh [])))
      ++ ring_details (after.0.persisted_event_seq + 1) (latest (events (connected_at 50 ∷ [])))
details-run_example =
    details-run number_crc history (connected_at 50 ∷ []) after.1 (omega arith) (omega arith)
      (SameBlocks-refl after.1)
