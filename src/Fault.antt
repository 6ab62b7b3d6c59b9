-- ===== src/Fault.antt =====
-- src/totem_fault.c: the record of a crash or a hang that survives a reset. `Fault` holds the two
-- static records. The checksum of zephyr's crc32_ieee, over the bytes of the fields from `kind` on,
-- is a parameter on those fields. Printing is left out. A Studio image, whose module hands over
-- the crash, is the flag and the argument of `totem_fault_report_and_clear`.
pub mod Once
mod Tests
use totem_zmk_config.Prelude.{
  ℕ, ◌+◌, ◌-◌, ◌%◌, Bool, true, false, ◌&&◌, ◌||◌, not, List, [], ◌∷◌, ◌++◌, Option, none, some,
  ◌==◌, if◌then◌else◌, ℤ, minus_one, pos, int8, take, length, ltb,
}
use totem_zmk_config.Hevt.{Hevt}
use totem_zmk_config.Event.{Event, event}

-- enum totem_fault_kind
abbrev pub kind_none : ℕ
kind_none = 0

abbrev pub kind_crash : ℕ
kind_crash = 1

abbrev pub kind_task_wdt : ℕ
kind_task_wdt = 2

-- The fields that the checksum covers; a label is its characters before the zero.
pub record Body : Type 0 where
  pub kind : ℕ
  pub channel : ℤ
  pub reason : ℕ
  pub pc : ℕ
  pub lr : ℕ
  pub uptime_ms : ℕ
  pub thread : ℕ
  pub label : List ℕ

-- struct totem_fault_record
pub record FaultRecord : Type 0 where
  pub magic : ℕ
  pub crc : ℕ
  pub body : Body

pub record Fault : Type 0 where
  pub fault_rec : FaultRecord
  pub last_fault : FaultRecord

pub totem_fault_last_record : Fault → FaultRecord
totem_fault_last_record s = s.last_fault

abbrev pub totem_fault_magic : ℕ
totem_fault_magic = 0x544f4654

abbrev pub label_size : ℕ
label_size = 20

-- The running thread: its identifier, and its name if it has one.
pub record Thread : Type 0 where
  pub id : ℕ
  pub name : Option (List ℕ)

-- `memset` with 0.
abbrev pub zero_body : Body
zero_body = record {
  kind = 0;
  channel = pos 0;
  reason = 0;
  pc = 0;
  lr = 0;
  uptime_ms = 0;
  thread = 0;
  label = [];
}

-- strncpy into the label and the zero at its end.
abbrev pub copy_label : List ℕ → List ℕ
copy_label s = take (label_size - 1) s

abbrev pub name_or_empty : Option (List ℕ) → List ℕ
name_or_empty none = []
name_or_empty (some s) = copy_label s

pub fault_fill_thread : Thread → Body → Body
fault_fill_thread t b = record b { thread = t.id; label = name_or_empty t.name }

-- The label of the channel wins, if there is one.
pub set_label : Option (List ℕ) → Body → Body
set_label none b = b
set_label (some l) b = record b { label = copy_label l }

pub set_trace : Option (ℕ × ℕ) → Body → Body
set_trace none b = b
set_trace (some (pc, lr)) b = record b { pc = pc; lr = lr }

module _ (fault_crc : Body → ℕ) where
  pub fault_valid : FaultRecord → Bool
  fault_valid r = r.magic == totem_fault_magic && r.crc == fault_crc r.body

  pub fault_seal : Body → FaultRecord
  fault_seal b = record { magic = totem_fault_magic; crc = fault_crc b; body = b }

  -- `label` is NULL where it is `none`.
  pub totem_fault_note_task_wdt : ℕ → Thread → ℤ → Option (List ℕ) → Fault → Fault
  totem_fault_note_task_wdt now t channel_id label s =
      let base = record zero_body {
        kind = kind_task_wdt;
        channel = int8 channel_id;
        reason = 0;
        uptime_ms = now;
      } in
      let filled = fault_fill_thread t base in
      record s { fault_rec = fault_seal (set_label label filled) }

  -- Up to the reboot; `esf` is the saved program counter and link register, if there are.
  pub k_sys_fatal_error_handler : ℕ → Thread → ℕ → Option (ℕ × ℕ) → Fault → Fault
  k_sys_fatal_error_handler now t reason esf s =
      let base = record zero_body {
        kind = kind_crash;
        channel = minus_one;
        reason = reason % 65536;
        uptime_ms = now;
      } in
      let filled = fault_fill_thread t base in
      record s { fault_rec = fault_seal (set_trace esf filled) }

  -- What zmk-studio-log hands over, with its thread name.
  pub fault_import_module_crash : Option Body → Fault → Fault
  fault_import_module_crash none s = s
  fault_import_module_crash (some crash) s = if fault_valid s.fault_rec then s else record s {
    fault_rec = fault_seal (record crash {
      kind = kind_crash;
      channel = minus_one;
      reason = crash.reason % 65536;
      label = copy_label crash.label;
    });
  }

  pub fault_status : FaultRecord → ℕ
  fault_status r =
      if r.magic == 0
      then 0
      else if not (r.magic == totem_fault_magic)
      then 1
      else if fault_valid r
      then 3
      else 2

  -- The part after the import: the status for the boot diagnostics, and the rows for the journal.
  pub report_and_clear : ℕ → Fault → Fault × ℕ × List Event
  report_and_clear now s =
      let status = fault_status s.fault_rec in
      let row =
        event now Hevt.boot_fault_status minus_one minus_one status
          (if status == 3 then s.fault_rec.body.kind else 0) 0 in
      if not (fault_valid s.fault_rec) then (s, status, row ∷ []) else (
        record { fault_rec = record s.fault_rec { magic = 0; crc = 0 }; last_fault = s.fault_rec },
        status,
        row
            ∷ event now Hevt.fault s.fault_rec.body.channel minus_one
                (s.fault_rec.body.reason % 256) 0 s.fault_rec.body.kind
            ∷ [],
      )

  -- `studio` is CONFIG_ZMK_STUDIO_LOG_FAULT_CAPTURE.
  pub totem_fault_report_and_clear : Bool → Option Body → ℕ → Fault → Fault × ℕ × List Event
  totem_fault_report_and_clear studio crash now s =
      report_and_clear now (if studio then fault_import_module_crash crash s else s)
