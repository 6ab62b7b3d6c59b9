-- ===== src/Fault/Tests.antt =====
-- The theorems on the fault record at concrete faults.
use totem_zmk_config.Prelude.{ℕ, ◌%◌, ◌≡◌, refl, true, false, [], ◌∷◌, none, some, pos, int8}
use totem_zmk_config.Fault.{
  Body, FaultRecord, Fault, Thread, zero_body, kind_crash, kind_task_wdt, fault_valid,
  totem_fault_note_task_wdt, k_sys_fatal_error_handler, totem_fault_report_and_clear,
}
use totem_zmk_config.Fault.Once.{reset, ReportedOnce, note-ReportedOnce, crash-ReportedOnce}

-- A stand-in for the checksum.
abbrev time_crc : Body → ℕ
time_crc b = b.uptime_ms

abbrev blank : FaultRecord
blank = record { magic = 0; crc = 0; body = zero_body }

abbrev cold : Fault
cold = record { fault_rec = blank; last_fault = blank }

abbrev main_thread : Thread
main_thread = record { id = 0x20000000; name = some (b'm' ∷ []) }

note-ReportedOnce_example :
    let noted = totem_fault_note_task_wdt time_crc 5000 main_thread (pos 1) none cold in
    (noted.fault_rec.body.kind ≡ kind_task_wdt)
    × (noted.fault_rec.body.channel ≡ int8 (pos 1))
    × ReportedOnce time_crc true
        (some zero_body)
        300
        400
        noted.fault_rec.body
        noted.fault_rec
        (totem_fault_report_and_clear time_crc true (some zero_body) 300 (reset noted))
note-ReportedOnce_example =
    note-ReportedOnce time_crc true (some zero_body) (some zero_body) 5000 300 400 main_thread
      (pos 1) none cold

crash-ReportedOnce_example :
    let noted = k_sys_fatal_error_handler time_crc 5000 main_thread 4 none cold in
    (noted.fault_rec.body.kind ≡ kind_crash)
    × (noted.fault_rec.body.reason ≡ 4 % 65536)
    × ReportedOnce time_crc false none 300 400 noted.fault_rec.body noted.fault_rec
        (totem_fault_report_and_clear time_crc false none 300 (reset noted))
crash-ReportedOnce_example = crash-ReportedOnce time_crc 5000 300 400 main_thread 4 none cold

cold_invalid : fault_valid time_crc blank ≡ false
unfolding fault_valid
cold_invalid = refl
