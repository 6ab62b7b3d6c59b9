-- ===== src/Journal/Persist.antt =====
-- src/host_event_log.c, `totem_host_event_log_persist`: one block of pending events to flash.
-- The mutex `ring_mu` is free while the block is written, so the function is the two locked parts
-- and what the caller's schedule puts between them. `persist_mu` keeps a second call out.
pub mod Copy
pub mod Progress
pub mod Limit
use totem_zmk_config.Prelude.{
  ℕ, zero, suc, ◌+◌, ◌-◌, ◌%◌, ◌^◌, Bool, true, false, ◌&&◌, ◌||◌, not, List, [], ◌∷◌, ◌++◌, get_or,
  set, ltb, ◌==◌, if◌then◌else◌, replicate, ℤ, is_nonzero, min, Option, none, some, arith,
}
use totem_zmk_config.Config.{ring_cap, persist_min_interval_ms, block_events, journal_slots}
use totem_zmk_config.Event.{Event, zero_event}
use totem_zmk_config.Boot
use totem_zmk_config.Boot.{Boot, Counter}
use totem_zmk_config.Journal.{Log, Wake, idle, oldest, schedule_persist_coalesced}
use totem_zmk_config.Journal.Layout.{Block, Payload, block_magic, block_version}

-- uint32_t addition and subtraction
abbrev pub add32 : ℕ → ℕ → ℕ
add32 a b = (a + b) % 2 ^ 32

abbrev pub sub32 : ℕ → ℕ → ℕ
sub32 a b = (a + 2 ^ 32 - b) % 2 ^ 32

-- The sequence number of the oldest event in the ring.
abbrev pub first_available : Log → ℕ
first_available s =
    if s.ring_count == 0 then add32 s.ring_seq 1 else add32 (sub32 s.ring_seq s.ring_count) 1

-- The first event that the block will hold.
abbrev pub first_new : Log → ℕ
first_new s =
    let next = add32 s.persisted_event_seq 1 in
    if ltb next (first_available s) then first_available s else next

-- `(uint16_t)MIN(pending, BLOCK_EVENTS)`
abbrev pub block_count : Log → ℕ
block_count s = min (add32 (sub32 s.ring_seq (first_new s)) 1) block_events

-- The loop that fills `persist_block.ev`, for `n` more values of `i`.
copy_events : List Event → ℕ → ℕ → ℕ → ℕ → ℕ → List Event
copy_events ring start available new i zero = []
copy_events ring start available new i (suc n) =
    let offset = sub32 (add32 new i) available % 2 ^ 16 in
    get_or ring ((start + offset) % ring_cap) zero_event
    ∷ copy_events ring start available new (i + 1) n

-- Less than the interval has passed since the last write.
abbrev pub rate_limited : ℕ → Log → Bool
rate_limited now s =
    not (s.last_persist_uptime_ms == 0)
    && ltb (now - s.last_persist_uptime_ms) persist_min_interval_ms

-- The settings key "th/dlog/%u"; a slot is one digit.
abbrev pub key : ℕ → List ℕ
key slot = b't' ∷ b'h' ∷ b'/' ∷ b'd' ∷ b'l' ∷ b'o' ∷ b'g' ∷ b'/' ∷ (b'0' + slot) ∷ []

-- What the first locked part finds.
pub data Begin : Type 0 where
  not_ready : Begin
  too_soon : Begin
  nothing_new : Log → Begin
  writing : Log → Block → ℕ → Begin

pub new_payload : Log → Payload
unfolding copy_events
new_payload s = record {
  magic = block_magic;
  version = block_version;
  slot = s.next_slot;
  count = block_count s % 2 ^ 8;
  journal_seq = add32 s.journal_seq 1;
  first_event_seq = first_new s;
  ev =
      copy_events s.ring (oldest s) (first_available s) (first_new s) 0 (block_count s)
      ++ replicate (block_events - block_count s) zero_event;
}

-- `crc32` is `crc32_ieee` over a block up to its last field.
module _ (crc32 : Payload → ℕ) where
  pub new_block : Log → Block
  unfolding new_payload
  new_block s = record { payload = new_payload s; crc = crc32 (new_payload s) }

  -- The first locked part; the number is `last_copied_seq`.
  unfoldable pub persist_begin : ℕ → Log → Begin
  unfolding new_block
  persist_begin now s =
      if not s.journal_ready
      then not_ready
      else if rate_limited now s
      then too_soon
      else if ltb s.ring_seq (first_new s)
      then nothing_new (record s { persist_requested = false })
      else writing (record s { journal_seq = add32 s.journal_seq 1; persist_requested = false })
          (new_block s) (sub32 (add32 (first_new s) (block_count s)) 1)

-- The second locked part: `err` is what `settings_save_one` returned. The flag is `more_pending`.
unfoldable pub persist_finish : ℤ → ℕ → Block → ℕ → Log → Log × Bool
persist_finish err now block last s =
    let s' =
      if is_nonzero err
      then record s { last_persist_uptime_ms = now; persist_requested = true }
      else record s {
        last_persist_uptime_ms = now;
        persisted_event_seq = last;
        restored_blocks = set s.restored_blocks block.slot block;
        restored_valid = set s.restored_valid block.slot true;
        next_slot = (block.slot + 1) % journal_slots;
      } in
    (s', s'.persist_requested || ltb s'.persisted_event_seq s'.ring_seq)

-- What the surroundings do during a call: the clock, the results of the two settings writes, and
-- what other threads do to the log while the block is written.
pub record Env : Type 0 where
  pub now : ℕ
  pub counter_err : ℤ
  pub err : ℤ
  pub meanwhile : Log → Log
  pub done : ℕ
  pub later : ℕ

-- The state after the call, what it asks of the work queue, and what it writes to flash.
pub record Outcome : Type 0 where
  pub log : Log
  pub boot : Boot
  pub wake : Wake
  pub counter : Option Counter
  pub block : Option Block

module _ (crc32 : Payload → ℕ) where
  unfoldable pub after_begin : Env → Boot → Log → Begin → Outcome
  after_begin env b s not_ready = record {
    log = s;
    boot = b;
    wake = idle;
    counter = none;
    block = none;
  }
  after_begin env b s too_soon =
      let (s', wake) = schedule_persist_coalesced true env.later s in
      record { log = s'; boot = b; wake = wake; counter = none; block = none }
  after_begin env b s (nothing_new s') = record {
    log = s';
    boot = b;
    wake = idle;
    counter = none;
    block = none;
  }
  after_begin env b s (writing s' block last) =
      let (b', _, counter) = Boot.persist env.counter_err b in
      let (s'', more) = persist_finish env.err env.done block last (env.meanwhile s') in
      let again = schedule_persist_coalesced true env.later s'' in
      record {
        log = if more then again.0 else s'';
        boot = b';
        wake = if more then again.1 else idle;
        counter = counter;
        block = some block;
      }

  unfoldable pub persist : Env → Boot → Log → Outcome
  unfolding after_begin
  persist env b s = after_begin env b s (persist_begin crc32 env.now s)
