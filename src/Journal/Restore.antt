-- ===== src/Journal/Restore.antt =====
-- src/host_event_log.c, `hevt_settings_set` and `zmk_settings_loaded`: the journal after a boot.
pub mod Accept
pub mod Resume
pub mod Newest
pub mod Saved
mod Tests
use totem_zmk_config.Prelude.{
  ℕ, zero, suc, ◌+◌, ◌-◌, ◌*◌, ◌%◌, Bool, true, false, ◌&&◌, ◌||◌, not, List, [], ◌∷◌, ◌++◌, get_or,
  set, ltb, leb, ◌==◌, if◌then◌else◌, ℤ, pos, minus_one, is_neg, int_eq, as_int8, Option, none,
  some,
}
use totem_zmk_config.Config.{block_events, journal_slots}
use totem_zmk_config.Hevt.{Hevt, code}
use totem_zmk_config.Event.{Event, zero_event}
use totem_zmk_config.Boot
use totem_zmk_config.Boot.{Boot, Read, enoent}
use totem_zmk_config.Journal.{Log, Wake, idle, record_event, schedule_persist_coalesced}
use totem_zmk_config.Journal.Layout.{Block, Payload, zero_block, block_magic, block_version}
use totem_zmk_config.Journal.Persist.{add32, sub32}

-- The slot that a settings name stands for, "dlog/" and one digit; a name is its bytes.
unfoldable pub name_slot : List ℕ → Option ℕ
name_slot (a ∷ b ∷ c ∷ d ∷ e ∷ digit ∷ []) =
    if a == b'd'
      && b == b'l'
      && c == b'o'
      && d == b'g'
      && e == b'/'
      && leb b'0' digit
      && leb digit b'9'
    then some (digit - b'0')
    else none
name_slot _ = none

-- sizeof(struct totem_diag_block)
abbrev pub block_size : ℕ
block_size = 20 + 10 * block_events

-- uint32_t
abbrev pub last_seq : Block → ℕ
last_seq block = sub32 (add32 block.first_event_seq block.count) 1

-- `crc32` is `crc32_ieee` over a block up to its last field.
module _ (crc32 : Payload → ℕ) where
  -- The test that every field of a stored block must pass.
  abbrev pub is_valid : ℕ → ℤ → Block → Bool
  is_valid slot rc block =
      block.magic == block_magic
      && block.version == block_version
      && block.slot == slot
      && not (block.count == 0)
      && leb block.count block_events
      && int_eq rc (pos block_size)
      && block.crc == crc32 block.payload

  -- The end of the handler, for a block that is valid.
  unfoldable pub accept : ℕ → Block → Log → Log
  accept slot block s =
      let newer = leb s.journal_seq block.journal_seq in
      record s {
        restored_blocks = set s.restored_blocks slot block;
        restored_valid = set s.restored_valid slot true;
        journal_seq = if newer then block.journal_seq else s.journal_seq;
        next_slot = if newer then (slot + 1) % journal_slots else s.next_slot;
        persisted_event_seq =
            if ltb s.persisted_event_seq (last_seq block)
            then last_seq block
            else s.persisted_event_seq;
      }

  -- `r.value` is what the slot's buffer holds after `memset` and `read_cb`.
  set_slot : Option ℕ → Read Block → Log → Log × ℤ
  unfolding accept
  set_slot none r s = (s, enoent)
  set_slot (some slot) r s =
      if leb journal_slots slot || not (r.len == block_size)
      then (s, pos 0)
      else if is_neg r.rc
      then (record s { restored_blocks = set s.restored_blocks slot r.value }, r.rc)
      else if not (is_valid slot r.rc r.value)
      then (record s { restored_blocks = set s.restored_blocks slot r.value }, pos 0)
      else (accept slot r.value s, pos 0)

  unfoldable pub settings_set : List ℕ → Read Block → Log → Log × ℤ
  unfolding set_slot name_slot
  settings_set name r s = set_slot (name_slot name) r s

-- The local variables of `zmk_settings_loaded`.
pub record ScanResult : Type 0 where
  pub previous_uptime : ℕ
  pub previous_seq : ℕ
  pub profile_seq : ℕ
  pub endpoint_seq : ℕ
  pub previous_profile : ℤ
  pub previous_endpoint : ℤ

abbrev pub no_scan : ScanResult
no_scan = record {
  previous_uptime = 0;
  previous_seq = 0;
  profile_seq = 0;
  endpoint_seq = 0;
  previous_profile = minus_one;
  previous_endpoint = minus_one;
}

-- Events whose `active` is the selected profile.
abbrev pub has_profile : Event → Bool
has_profile e =
    (leb (code Hevt.disc) e.type && leb e.type (code Hevt.thrash_win))
    || (leb (code Hevt.hid_subscribed) e.type && leb e.type (code Hevt.flash_end))

abbrev pub has_endpoint : Event → Bool
has_endpoint e = e.type == code Hevt.usb && e.reason == 255

pub scan_event : ℕ → Event → ScanResult → ScanResult
scan_event seq e t =
    let newest = ltb t.previous_seq seq in
    let profile = has_profile e && not (is_neg e.active) && ltb t.profile_seq seq in
    let endpoint = has_endpoint e && ltb t.endpoint_seq seq in
    record {
      previous_uptime = if newest then e.uptime_ms else t.previous_uptime;
      previous_seq = if newest then seq else t.previous_seq;
      profile_seq = if profile then seq else t.profile_seq;
      endpoint_seq = if endpoint then seq else t.endpoint_seq;
      previous_profile = if profile then e.active else t.previous_profile;
      previous_endpoint = if endpoint then as_int8 e.extra else t.previous_endpoint;
    }

-- The loop over `n`, for `k` more rounds.
pub scan_events : List Event → ℕ → ℕ → ℕ → ScanResult → ScanResult
scan_events ev first n zero t = t
scan_events ev first n (suc k) t =
    scan_events ev first (n + 1) k (scan_event (add32 first n) (get_or ev n zero_event) t)

pub scan_slot : Bool → Block → ScanResult → ScanResult
scan_slot valid block t =
    if valid then scan_events block.ev block.first_event_seq 0 block.count t else t

-- The loop over the slots, for `k` more rounds.
pub scan_slots : Log → ℕ → ℕ → ScanResult → ScanResult
scan_slots s slot zero t = t
scan_slots s slot (suc k) t =
    scan_slots s (slot + 1) k
      (scan_slot (get_or s.restored_valid slot false) (get_or s.restored_blocks slot zero_block) t)

-- Only a journal that is not ready is inspected.
pub scan_log : Log → ScanResult
unfolding scan_event scan_events scan_slot scan_slots
scan_log s = if s.journal_ready then no_scan else scan_slots s 0 journal_slots no_scan

pub record_events : List Event → ℕ → Log → Log × List Wake
record_events [] now s = (s, [])
record_events (e ∷ es) now s =
    let (s', wake) = record_event e true now s in
    let (s'', wakes) = record_events es now s' in (s'', wake ∷ wakes)

-- The locked part: the numbers of this boot's events go on after the saved ones.
unfoldable pub resume : Log → Log
resume s =
    if s.journal_ready
    then s
    else record s { ring_seq = add32 s.persisted_event_seq s.ring_count; journal_ready = true }

-- `zmk_settings_loaded`: `counter_crc` is the CRC of the boot counter and `now` the uptime.
module _ (counter_crc : ℕ → ℕ) where
  unfoldable pub settings_loaded : ℕ → Boot → Log → Log × Boot × List Wake
  settings_loaded now b s =
      let t = scan_log s in
      let s' = resume s in
      let pending = ltb s'.persisted_event_seq s'.ring_seq in
      let (b', es) =
        Boot.loaded counter_crc now t.previous_uptime t.previous_profile t.previous_endpoint b in
      let (s'', wakes) = record_events es now s' in
      let (s''', wake) = schedule_persist_coalesced true now s'' in
      if pending then (s''', b', wakes ++ wake ∷ []) else (s'', b', wakes)
