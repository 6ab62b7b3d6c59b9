-- ===== src/Fault/Once.antt =====
-- A fault is reported after the next reset, exactly once.
use totem_zmk_config.Prelude.{
  ℕ, ◌≡◌, ap, sym, subst, ◌<◌, ◌%◌, refl, arith, Bool, true, false, List, [], ◌∷◌, Option, none,
  some, ℤ, minus_one, int8,
}
use totem_zmk_config.Hevt.{Hevt}
use totem_zmk_config.Event.{Event, event}
use totem_zmk_config.Fault.{
  Body, FaultRecord, Fault, Thread, kind_crash, kind_task_wdt, zero_body, fault_valid, fault_seal,
  totem_fault_note_task_wdt, k_sys_fatal_error_handler, fault_import_module_crash, fault_status,
  report_and_clear, totem_fault_report_and_clear, set_label, set_trace, fault_fill_thread,
  copy_label,
}

-- A reset keeps the stored record and clears the other one.
abbrev pub zero_record : FaultRecord
zero_record = record { magic = 0; crc = 0; body = zero_body }

unfoldable pub reset : Fault → Fault
reset s = record s { last_fault = zero_record }

module _ (fault_crc : Body → ℕ) where
  -- The row of a fault in the journal.
  abbrev pub fault_row : ℕ → ℤ → ℕ → ℕ → Event
  fault_row now channel reason kind = event now Hevt.fault channel minus_one (reason % 256) 0 kind

  seal-valid : (b : Body) → fault_valid fault_crc (fault_seal fault_crc b) ≡ true
  unfolding fault_valid fault_seal
  seal-valid b = ground arith

  abbrev pub status_row : ℕ → ℕ → ℕ → Event
  status_row now status kind = event now Hevt.boot_fault_status minus_one minus_one status kind 0

  import-valid :
      (crash : Option Body) (s : Fault)
      → fault_valid fault_crc s.fault_rec ≡ true
      → fault_import_module_crash fault_crc crash s ≡ s
  unfolding fault_import_module_crash
  import-valid none s h = refl
  import-valid (some crash) s h = rw h refl

  report-valid :
      (studio : Bool) (crash : Option Body) (now : ℕ) (s : Fault)
      → fault_valid fault_crc s.fault_rec ≡ true
      → totem_fault_report_and_clear fault_crc studio crash now s ≡ report_and_clear fault_crc now s
  unfolding totem_fault_report_and_clear
  report-valid true crash now s h = ap (report_and_clear fault_crc now) (import-valid crash s h)
  report-valid false crash now s h = refl

  -- The rows of a boot that finds no stored record: only a crash that the module hands over, on a
  -- Studio image, is a fault.
  abbrev pub fresh_rows : Bool → Option Body → ℕ → List Event
  fresh_rows true (some crash) now =
      status_row now 3 kind_crash ∷ fault_row now minus_one (crash.reason % 65536) kind_crash ∷ []
  fresh_rows true none now = status_row now 0 0 ∷ []
  fresh_rows false crash now = status_row now 0 0 ∷ []

  -- What the report of a sealed record says and leaves; and the boot after it, with what the module
  -- then hands over, reports only that.
  abbrev pub ReportedOnce :
      Bool → Option Body → ℕ → ℕ → Body → FaultRecord → Fault × ℕ × List Event → Type 0
  ReportedOnce studio fresh now again b kept (s', status, rows) =
      (status ≡ 3)
      × (rows ≡ status_row now 3 b.kind ∷ fault_row now b.channel b.reason b.kind ∷ [])
      × (s'.last_fault ≡ kept)
      × ((totem_fault_report_and_clear fault_crc studio fresh again (reset s')).2
          ≡ fresh_rows studio fresh again)

  -- A record whose magic number is 0.
  cleared-fresh_rows :
      (studio : Bool) (fresh : Option Body) (again : ℕ) (b : Body) (kept : FaultRecord)
      → (totem_fault_report_and_clear fault_crc studio fresh again
          (record { fault_rec = record { magic = 0; crc = 0; body = b }; last_fault = kept })).2
        ≡ fresh_rows studio fresh again
  unfolding totem_fault_report_and_clear fault_import_module_crash report_and_clear fault_status
      fault_valid fault_seal
  cleared-fresh_rows true none again b kept = refl
  cleared-fresh_rows true (some crash) again b kept = ground arith
  cleared-fresh_rows false fresh again b kept = refl

  sealed-ReportedOnce :
      (studio : Bool) (fresh : Option Body) (b : Body) (now again : ℕ) (kept : FaultRecord)
      → ReportedOnce studio fresh now again b (fault_seal fault_crc b) (
          report_and_clear fault_crc now
            (record { fault_rec = fault_seal fault_crc b; last_fault = kept }))
  unfolding report_and_clear fault_status reset fault_seal
  sealed-ReportedOnce studio fresh b now again kept =
      rw (seal-valid b) (refl, refl, refl, cleared-fresh_rows studio fresh again b zero_record)

  stored-ReportedOnce :
      (studio : Bool) (crash fresh : Option Body) (b : Body) (now again : ℕ) (kept : FaultRecord)
      → ReportedOnce studio fresh now again b (fault_seal fault_crc b) (
          totem_fault_report_and_clear fault_crc studio crash now
            (record { fault_rec = fault_seal fault_crc b; last_fault = kept }))
  unfolding fault_seal
  stored-ReportedOnce studio crash fresh b now again kept =
      subst (ReportedOnce studio fresh now again b (fault_seal fault_crc b))
        (sym (
          report-valid studio crash now
            (record { fault_rec = fault_seal fault_crc b; last_fault = kept }) (seal-valid b)))
        (sealed-ReportedOnce studio fresh b now again kept)

  -- A hang that the watchdog notes is reported at the next boot, on every image and whatever the
  -- Studio module hands over, with its channel and as a hang, and the report leaves it as the last
  -- record. The boot after that, on the same image, does not report it again: it reports at most the
  -- crash that the module hands over by then.
  pub note-ReportedOnce :
      (studio : Bool) (crash fresh : Option Body) (at now again : ℕ) (t : Thread) (channel : ℤ)
      (label : Option (List ℕ)) (s : Fault)
      → let noted = totem_fault_note_task_wdt fault_crc at t channel label s in
        (noted.fault_rec.body.kind ≡ kind_task_wdt)
        × (noted.fault_rec.body.channel ≡ int8 channel)
        × ReportedOnce studio fresh now again noted.fault_rec.body noted.fault_rec
            (totem_fault_report_and_clear fault_crc studio crash now (reset noted))
  unfolding totem_fault_note_task_wdt fault_seal fault_fill_thread set_label reset
  note-ReportedOnce studio crash fresh at now again t channel none s = (
    refl,
    refl,
    stored-ReportedOnce studio crash fresh
        (totem_fault_note_task_wdt fault_crc at t channel none s).fault_rec.body now again
        zero_record,
  )
  note-ReportedOnce studio crash fresh at now again t channel (some l) s = (
    refl,
    refl,
    stored-ReportedOnce studio crash fresh
        (totem_fault_note_task_wdt fault_crc at t channel (some l) s).fault_rec.body now again
        zero_record,
  )

  pub label-note :
      (at : ℕ) (t : Thread) (channel : ℤ) (l : List ℕ) (s : Fault)
      → (totem_fault_note_task_wdt fault_crc at t channel (some l) s).fault_rec.body.label
        ≡ copy_label l
  unfolding totem_fault_note_task_wdt fault_seal fault_fill_thread set_label
  label-note at t channel l s = refl

  -- On an image without the Studio module, a crash that reaches the fatal error handler is reported
  -- at the next boot as a crash, from a record with the low 16 bits of its reason, which the report
  -- leaves as the last record; the boot after that reports no fault.
  pub crash-ReportedOnce :
      (at now again : ℕ) (t : Thread) (reason : ℕ) (esf : Option (ℕ × ℕ)) (s : Fault)
      → let noted = k_sys_fatal_error_handler fault_crc at t reason esf s in
        (noted.fault_rec.body.kind ≡ kind_crash)
        × (noted.fault_rec.body.reason ≡ reason % 65536)
        × ReportedOnce false none now again noted.fault_rec.body noted.fault_rec
            (totem_fault_report_and_clear fault_crc false none now (reset noted))
  unfolding k_sys_fatal_error_handler fault_seal fault_fill_thread set_trace reset
  crash-ReportedOnce at now again t reason none s = (
    refl,
    refl,
    stored-ReportedOnce false none none
        (k_sys_fatal_error_handler fault_crc at t reason none s).fault_rec.body now again
        zero_record,
  )
  crash-ReportedOnce at now again t reason (some (pc, lr)) s = (
    refl,
    refl,
    stored-ReportedOnce false none none
        (k_sys_fatal_error_handler fault_crc at t reason (some (pc, lr)) s).fault_rec.body now again
        zero_record,
  )

  -- A record whose magic number or checksum does not fit is not reported as a fault, on an image
  -- without the module: one row with a status below 3 is written, and nothing else changes.
  pub report-invalid :
      (now : ℕ) (s : Fault)
      → fault_valid fault_crc s.fault_rec ≡ false
      → totem_fault_report_and_clear fault_crc false none now s ≡ (
        s,
        fault_status fault_crc s.fault_rec,
        status_row now (fault_status fault_crc s.fault_rec) 0 ∷ [],
      )
        × (fault_status fault_crc s.fault_rec < 3)
  unfolding totem_fault_report_and_clear report_and_clear fault_status fault_valid
  report-invalid now s h = ground arith
