-- ===== src/Watchdog/Tests.antt =====
-- The theorems on the watchdog at concrete inputs.
use totem_zmk_config.Prelude.{ℕ, ◌+◌, ◌≡◌, refl, true, pos, int8, none, [], ◌∷◌}
use totem_zmk_config.Fault.{
  Body, Fault, FaultRecord, Thread, kind_task_wdt, zero_body, totem_fault_report_and_clear,
}
use totem_zmk_config.Fault.Once.{reset, ReportedOnce}
use totem_zmk_config.Watchdog.{Masks, Channels, sysworkq, name_of, totem_task_wdt_cb}
use totem_zmk_config.Watchdog.Hang.{turn, feeds, hang-ReportedOnce}

abbrev masks : Masks
masks = record {
  pin = 1;
  software = 2;
  brownout = 4;
  por = 8;
  watchdog = 16;
  debug = 32;
  low_power_wake = 128;
}

-- A reset by software and the watchdog, with a bit that no mask has.
abbrev cause : ℕ
cause = 0x52

abbrev crc : Body → ℕ
crc b = b.uptime_ms + b.kind

abbrev empty_record : FaultRecord
empty_record = record { magic = 0; crc = 0; body = zero_body }

abbrev no_fault : Fault
no_fault = record { fault_rec = empty_record; last_fault = empty_record }

abbrev channels : Channels
channels = record { chan_sched = pos 0; chan_workq = pos 1; chan_timer = pos 2 }

abbrev isr : Thread
isr = record { id = 9; name = none }

hang-ReportedOnce_example :
    let noted = totem_task_wdt_cb crc 7000 isr (pos 1) channels no_fault in
    (feeds (turn sysworkq channels) ≡ pos 1 ∷ [])
    × (noted.fault_rec.body.label ≡ name_of sysworkq)
    × (noted.fault_rec.body.kind ≡ kind_task_wdt)
    × (noted.fault_rec.body.channel ≡ int8 (pos 1))
    × ReportedOnce crc true none 50 60 noted.fault_rec.body noted.fault_rec
        (totem_fault_report_and_clear crc true none 50 (reset noted))
hang-ReportedOnce_example =
    hang-ReportedOnce crc true none none 7000 50 60 isr sysworkq channels no_fault
      (record { sched_workq = refl; sched_timer = refl; workq_timer = refl })
