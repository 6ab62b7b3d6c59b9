-- ===== src/Timing.antt =====
-- src/diagnostic_timing.c: records taken in the controller's path wait in a small inbox, which a
-- work item drains into the journal. `Inbox` holds the file's static variables. Each section under
-- the spinlock is one function, so that they can interleave.
pub mod Fifo
pub mod Interleave
pub mod Drain
pub mod Delivery
pub mod Wrappers
mod Tests
use totem_zmk_config.Prelude.{
  ℕ, zero, suc, ◌+◌, ◌-◌, ◌%◌, ◌/◌, Bool, true, false, ◌&&◌, not, List, [], ◌∷◌, ◌++◌, get_or, set,
  ltb, ◌==◌, if◌then◌else◌, replicate, ℤ, pos, minus_one, int8, as_int8, as_uint8, is_neg,
  magnitude, min, take, length,
}
use totem_zmk_config.Hevt.{Hevt}

-- struct timing_record, and the arguments of `totem_host_event_log_record_timing`.
pub record TimingRecord : Type 0 where
  pub uptime_ms : ℕ
  pub type : Hevt
  pub idx : ℤ
  pub active : ℤ
  pub reason : ℕ
  pub pair : ℕ
  pub extra : ℕ

abbrev pub timing_cap : ℕ
timing_cap = 24

pub record Inbox : Type 0 where
  pub timing_inbox : List TimingRecord
  pub timing_head : ℕ
  pub timing_count : ℕ
  pub timing_dropped : ℕ
  pub write_sequence : ℕ

abbrev pub no_record : TimingRecord
no_record = record {
  uptime_ms = 0;
  type = Hevt.no_event;
  idx = pos 0;
  active = pos 0;
  reason = 0;
  pair = 0;
  extra = 0;
}

abbrev pub initial : Inbox
initial = record {
  timing_inbox = replicate timing_cap no_record;
  timing_head = 0;
  timing_count = 0;
  timing_dropped = 0;
  write_sequence = 0;
}

-- The section of `totem_diagnostic_timing_capture`; the work is then submitted in any case.
unfoldable pub totem_diagnostic_timing_capture : TimingRecord → Inbox → Inbox
totem_diagnostic_timing_capture r s =
    if ltb s.timing_count timing_cap
    then record s {
      timing_inbox = set s.timing_inbox ((s.timing_head + s.timing_count) % timing_cap) r;
      timing_count = s.timing_count + 1;
    }
    else if ltb s.timing_dropped 255
    then record s { timing_dropped = s.timing_dropped + 1 }
    else s

-- One round of `timing_drain`: the records it passes on.
unfoldable pub drain_round : ℕ → Inbox → Inbox × List TimingRecord
drain_round now s =
    if s.timing_count == 0
    then (
      record s { timing_dropped = 0 },
      if s.timing_dropped == 0
          then []
          else record {
            uptime_ms = now;
            type = Hevt.timing_dropped;
            idx = minus_one;
            active = minus_one;
            reason = s.timing_dropped;
            pair = 0;
            extra = 0;
          }
            ∷ [],
    )
    else (
      record s {
        timing_head = (s.timing_head + 1) % timing_cap;
        timing_count = s.timing_count - 1;
      },
      get_or s.timing_inbox s.timing_head no_record ∷ [],
    )

-- The whole loop, when nothing is captured meanwhile: `k` rounds with a record, then the last.
pub drain_rounds : ℕ → ℕ → Inbox → Inbox × List TimingRecord
drain_rounds now zero s = drain_round now s
drain_rounds now (suc k) s =
    let (s', one) = drain_round now s in
    let (s'', rest) = drain_rounds now k s' in (s'', one ++ rest)

pub timing_drain : ℕ → Inbox → Inbox × List TimingRecord
timing_drain now s = drain_rounds now s.timing_count s
