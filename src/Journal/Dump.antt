-- ===== src/Journal/Dump.antt =====
-- src/host_event_log.c, `totem_host_event_log_dump`: the journal as lines of text for a computer.
-- A line is its parts; its length as zephyr's snprintk gives it is a parameter. What
-- `totem_studio_send_diag_line` answers, attempt by attempt, is a list, 0 where it ends. The log is
-- the copy that is taken under `ring_mu`.
pub mod Complete
pub mod Whole
use totem_zmk_config.Prelude.{
  ℕ, zero, suc, ◌+◌, ◌-◌, ◌%◌, ◌^◌, Bool, true, false, ◌&&◌, ◌||◌, not, List, [], ◌∷◌, ◌++◌, length,
  get_or, leb, ◌==◌, if◌then◌else◌, ℤ, pos, int_eq, is_nonzero,
}
use totem_zmk_config.Config.{journal_slots}
use totem_zmk_config.Event.{Event, zero_event}
use totem_zmk_config.Boot.{Boot, BootText, totem_boot_diagnostics_format}
use totem_zmk_config.Fault.{Fault, Body, kind_none, totem_fault_last_record}
use totem_zmk_config.Journal.{Log, ring_get_ordered}
use totem_zmk_config.Journal.Layout.{Block, zero_block}
use totem_zmk_config.Journal.Persist.{add32, sub32}

-- What follows the ordinal in a data line. The flag tells a stored event from one of the ring.
pub data Detail : Type 0 where
  block_detail : ℕ → ℕ → ℕ → ℕ → Detail
  event_detail : Bool → ℕ → ℕ → Event → Detail

pub data Line : Type 0 where
  boot_line : BootText → Line
  fault_line : Body → Line
  begin_line : ℕ → ℕ → ℕ → ℕ → ℕ → ℕ → Line
  data_line : ℕ → ℕ → Detail → Line
  end_line : ℕ → ℕ → Line

-- The dump so far: the answers to come, `ordinal`, and the lines that were sent.
pub record Dump : Type 0 where
  pub answers : List ℤ
  pub ordinal : ℕ
  pub sent : List Line

-- -EAGAIN
abbrev pub eagain : ℤ
eagain = ℤ.negsuc 10

-- The loop of `dump_send`, for `k` more attempts: the result and the answers to come.
pub attempts : ℕ → List ℤ → ℤ × List ℤ
attempts zero rest_answers = (eagain, rest_answers)
attempts (suc k) [] = (pos 0, [])
attempts (suc k) (a ∷ rest_answers) =
    let rest = attempts k rest_answers in if int_eq a eagain then rest else (a, rest_answers)

-- The flag is whether the result is 0.
pub dump_send : Line → Dump → Dump × Bool
dump_send line d =
    let (err, later) = attempts 40 d.answers in
    if is_nonzero err
    then (record d { answers = later }, false)
    else (record d { answers = later; sent = d.sent ++ line ∷ [] }, true)

-- The loop that counts, for `k` more slots: `blocks` and `persistent_events`.
pub count_slots : Log → ℕ → ℕ → ℕ × ℕ
count_slots s slot zero = (0, 0)
count_slots s slot (suc k) =
    let (blocks, events) = count_slots s (slot + 1) k in
    if get_or s.restored_valid slot false
    then (blocks + 1, events + (get_or s.restored_blocks slot zero_block).count)
    else (blocks, events)

pub expected : Log → ℕ
expected s =
    let (blocks, events) = count_slots s 0 journal_slots in
    (blocks + events + s.ring_count) % 2 ^ 32

-- `line_len` and `detail_len` are what snprintk returns; it is never negative here.
module _ (line_len : Line → ℕ) (detail_len : Detail → ℕ) where
  pub dump_data : ℕ → Detail → Dump → Dump × Bool
  dump_data id detail d =
      let (d', ok) = dump_send (data_line id d.ordinal detail) d in
      if leb 120 (line_len (data_line id d.ordinal detail))
      then (d, false)
      else if ok
      then (record d' { ordinal = d'.ordinal + 1 }, true)
      else (d', false)

  -- Also `dump_event`: the detail has its own buffer.
  pub dump_detail : ℕ → Detail → Dump → Dump × Bool
  dump_detail id detail d = if leb 90 (detail_len detail) then (d, false) else dump_data id detail d

  -- The loop over the events of a block, for `k` more.
  pub dump_stored : ℕ → ℕ → Block → ℕ → ℕ → Dump → Dump × Bool
  dump_stored id slot block i zero d = (d, true)
  dump_stored id slot block i (suc k) d =
      let (d', ok) =
        dump_detail id
          (event_detail true slot (add32 block.first_event_seq i) (get_or block.ev i zero_event))
          d in
      let rest = dump_stored id slot block (i + 1) k d' in if ok then rest else (d', false)

  pub dump_block : ℕ → ℕ → Block → Dump → Dump × Bool
  dump_block id slot block d =
      let (d', ok) =
        dump_detail id (block_detail slot block.journal_seq block.first_event_seq block.count) d in
      if ok then dump_stored id slot block 0 block.count d' else (d', false)

  -- The loop over the slots from the oldest on, for `k` more.
  pub dump_slots : ℕ → Log → ℕ → ℕ → Dump → Dump × Bool
  dump_slots id s off zero d = (d, true)
  dump_slots id s off (suc k) d =
      let slot = (s.next_slot + off) % journal_slots in
      let (d', ok) =
        if get_or s.restored_valid slot false
        then dump_block id slot (get_or s.restored_blocks slot zero_block) d
        else (d, true) in
      let rest = dump_slots id s (off + 1) k d' in if ok then rest else (d', false)

  -- The loop over the ring, from the event with number `seq` on.
  pub dump_ring : ℕ → ℕ → List Event → Dump → Dump × Bool
  dump_ring id seq [] d = (d, true)
  dump_ring id seq (e ∷ es) d =
      let (d', ok) = dump_detail id (event_detail false 0 seq e) d in
      let rest = dump_ring id (add32 seq 1) es d' in if ok then rest else (d', false)

  pub dump_body : ℕ → Log → Dump → Dump × Bool
  dump_body id s d =
      let (d', ok) = dump_slots id s 0 journal_slots d in
      if ok
      then dump_ring id (add32 (sub32 s.ring_seq s.ring_count) 1) (ring_get_ordered s) d'
      else (d', false)

  -- From the `begin` line on.
  pub dump_journal : ℕ → Log → Dump → Dump
  dump_journal id s d =
      let (blocks, events) = count_slots s 0 journal_slots in
      let line = begin_line id (expected s) blocks events s.ring_count s.ring_seq in
      let (d1, begun) = dump_send line d in
      let (d2, ok) = dump_body id s d1 in
      let last = end_line id d2.ordinal in
      if leb 120 (line_len line)
      then d
      else if not begun
      then d1
      else if not ok
      then d2
      else if d2.ordinal == expected s && not (leb 120 (line_len last))
      then (dump_send last d2).0
      else d2

  -- The answers are those of the whole dump; the fault's line shows the fields of its body.
  pub totem_host_event_log_dump : ℕ → Boot → Fault → Log → List ℤ → Dump
  totem_host_event_log_dump id b f s answers =
      let fault = (totem_fault_last_record f).body in
      let start : Dump = record { answers = answers; ordinal = 0; sent = [] } in
      let (d1, ok1) = dump_send (boot_line (totem_boot_diagnostics_format false b)) start in
      let (d2, ok2) = dump_send (boot_line (totem_boot_diagnostics_format true b)) d1 in
      let (d3, ok3) =
        if fault.kind == kind_none then (d2, true) else dump_send (fault_line fault) d2 in
      if not ok1 then d1 else if not ok2 then d2 else if not ok3 then d3 else dump_journal id s d3
