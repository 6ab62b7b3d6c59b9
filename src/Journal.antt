-- ===== src/Journal.antt =====
-- src/host_event_log.c: the ring of events in RAM, and its journal of blocks in flash.
-- `Log` holds the file's static variables; a function that updates them returns the new record.
pub mod Ordered
pub mod Record
pub mod Sequence
pub mod Pending
pub mod Layout
pub mod Persist
pub mod Restore
pub mod Reboot
pub mod Dump
pub mod Requests
mod Tests
use totem_zmk_config.Prelude.{
  ℕ, zero, suc, ◌+◌, ◌-◌, ◌%◌, ◌^◌, Bool, true, false, ◌&&◌, not, List, [], ◌∷◌, get_or, set, ltb,
  leb, ◌==◌, if◌then◌else◌, replicate,
}
use totem_zmk_config.Config.{ring_cap, persist_every, persist_min_interval_ms, journal_slots}
use totem_zmk_config.Event.{Event, zero_event}
use Layout.{Block, zero_block}

pub record Log : Type 0 where
  pub ring : List Event
  pub ring_head : ℕ  -- uint16: next write
  pub ring_count : ℕ  -- uint16
  pub ring_seq : ℕ  -- uint32
  pub persisted_event_seq : ℕ  -- uint32
  pub journal_seq : ℕ  -- uint32
  pub next_slot : ℕ  -- uint8
  pub events_since_persist : ℕ  -- uint16
  pub last_persist_uptime_ms : ℕ  -- int64, never negative
  pub persist_requested : Bool
  pub journal_ready : Bool
  pub restored_blocks : List Block
  pub restored_valid : List Bool

-- The static initialisers, with CONFIG_SETTINGS on.
abbrev pub initial : Log
initial = record {
  ring = replicate ring_cap zero_event;
  ring_head = 0;
  ring_count = 0;
  ring_seq = 0;
  persisted_event_seq = 0;
  journal_seq = 0;
  next_slot = 0;
  events_since_persist = 0;
  last_persist_uptime_ms = 0;
  persist_requested = false;
  journal_ready = false;
  restored_blocks = replicate journal_slots zero_block;
  restored_valid = replicate journal_slots false;
}

-- `out[i] = ring[(start + i) % RING_CAP]` for `n` more values of `i`.
pub read_from : List Event → ℕ → ℕ → ℕ → List Event
read_from ring start i zero = []
read_from ring start i (suc n) =
    get_or ring ((start + i) % ring_cap) zero_event ∷ read_from ring start (i + 1) n

-- The index of the oldest event.
abbrev pub oldest : Log → ℕ
oldest s = (s.ring_head + ring_cap - s.ring_count) % ring_cap

-- What the function writes to `out`; its length is `*out_count`.
unfoldable pub ring_get_ordered : Log → List Event
unfolding read_from
ring_get_ordered s = if s.ring_count == 0 then [] else read_from s.ring (oldest s) 0 s.ring_count

-- What is asked of the work queue for `persist_work`, with the delay in ms.
pub data Wake : Type 0 where
  idle : Wake
  schedule : ℕ → Wake
  reschedule : ℕ → Wake

-- `now` is not before `last_persist_uptime_ms`: uptime only grows, and both are read in order.
abbrev pub wait_ms : Bool → ℕ → Log → ℕ
wait_ms urgent now s =
    let elapsed = now - s.last_persist_uptime_ms in
    if not (s.last_persist_uptime_ms == 0) && ltb elapsed persist_min_interval_ms
    then persist_min_interval_ms - elapsed
    else if urgent
    then 0
    else persist_min_interval_ms

unfoldable pub schedule_persist_coalesced : Bool → ℕ → Log → Log × Wake
schedule_persist_coalesced urgent now s =
    let s' = record s { persist_requested = true } in
    if not s.journal_ready
    then (s', idle)
    else (s', if urgent then reschedule (wait_ms urgent now s) else schedule (wait_ms urgent now s))

-- The part of `record_event` that holds `ring_mu`, with the test `need_persist`.
pub append : Event → Bool → Log → Log × Bool
append e persist s =
    let since = if persist then (s.events_since_persist + 1) % 2 ^ 16 else s.events_since_persist in
    let need = persist && leb persist_every since in
    (
      record s {
        ring = set s.ring s.ring_head e;
        ring_head = (s.ring_head + 1) % ring_cap;
        ring_count = if ltb s.ring_count ring_cap then s.ring_count + 1 else s.ring_count;
        ring_seq = (s.ring_seq + 1) % 2 ^ 32;
        events_since_persist = if need then 0 else since;
      },
      need,
    )

-- `now` is the time at which the callee schedules the flush.
unfoldable pub record_event : Event → Bool → ℕ → Log → Log × Wake
unfolding append schedule_persist_coalesced
record_event e persist now s =
    let (s', need) = append e persist s in
    if persist then schedule_persist_coalesced need now s' else (s', idle)

-- `totem_host_event_log_record` and `totem_host_event_log_record_timing`
abbrev pub record_now : Event → ℕ → Log → Log × Wake
record_now e now s = record_event e true now s

abbrev pub record_timing : Event → Log → Log × Wake
record_timing e s = record_event e false 0 s
