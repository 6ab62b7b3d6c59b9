-- ===== src/Journal/Restore/Resume.antt =====
-- The hand-over from the saved journal to this boot's events.
use totem_zmk_config.Prelude.{
  ℕ, suc, ◌+◌, ◌-◌, ◌≤◌, ◌<◌, ◌≡◌, ◌^◌, refl, ap, sym, ◌∙◌, arith, true, false, List, [], ◌∷◌, ◌++◌,
  length, drop, map, Bool-cases, inl, inr, ltb,
}
use totem_zmk_config.Config.{journal_slots}
use totem_zmk_config.Event.{Event}
use totem_zmk_config.Boot
use totem_zmk_config.Boot.{Boot}
use totem_zmk_config.Journal.{Log, ring_get_ordered, record_event}
use totem_zmk_config.Journal.Ordered.{IsWf, contents, ordered-contents}
use totem_zmk_config.Journal.Record.{Call, record_all, events, latest, schedule-request}
use totem_zmk_config.Journal.Sequence.{IsSound, backlog, pending}
use totem_zmk_config.Journal.Pending.{pending-record_all}
use totem_zmk_config.Journal.Restore.{resume, settings_loaded, record_events, scan_log}

-- A journal that has read its blocks and not yet been told that all are read.
pub record IsLoading (s : Log) : Type 0 where
  pub wf : IsWf s
  pub not_ready : s.journal_ready ≡ false
  pub room : s.persisted_event_seq + s.ring_count + 6 < 2 ^ 32
  pub slot_in : s.next_slot < journal_slots
  pub blocks : length s.restored_blocks ≡ journal_slots
  pub flags : length s.restored_valid ≡ journal_slots

-- From here on the numbers are in order, and exactly this boot's events wait to be saved.
pub resume-IsSound : (s : Log) → IsLoading s → IsSound (resume s)
unfolding resume
resume-IsSound s l = ground (arith, l.wf)

pub contents-resume : (s : Log) → contents (resume s) ≡ contents s
unfolding resume
contents-resume s = ground arith

all_pending : (s : Log) → IsLoading s → (resume s).ring_count - backlog (resume s) ≡ 0
unfolding resume
all_pending s l = ground (arith, l.wf)

pub resume_numbers :
    (s : Log)
    → IsLoading s
    → ((resume s).ring_seq ≡ s.persisted_event_seq + s.ring_count)
      × ((resume s).journal_ready ≡ true)
unfolding resume
resume_numbers s l = ground (arith, l.wf)

pending-resume : (s : Log) → IsLoading s → pending (resume s) ≡ contents s
pending-resume s l = ap (λ k. drop k (contents (resume s))) (all_pending s l) ∙ contents-resume s

calls : ℕ → List Event → List Call
calls now = map λ e. (e, true, now)

record_events-record_all :
    (es : List Event) (now : ℕ) (s : Log) → (record_events es now s).0 ≡ record_all (calls now es) s
unfolding record_events record_all calls
record_events-record_all [] now s = refl
record_events-record_all (e ∷ es) now s =
    record_events-record_all es now (record_event e true now s).0

events-calls : (es : List Event) (now : ℕ) → events (calls now es) ≡ es
unfolding calls
events-calls [] now = refl
events-calls (e ∷ es) now = ap (λ xs. e ∷ xs) (events-calls es now)

length-calls : (es : List Event) (now : ℕ) → length (calls now es) ≡ length es
unfolding calls
length-calls [] now = refl
length-calls (e ∷ es) now = ap suc (length-calls es now)

pending-record_events :
    (es : List Event) (now : ℕ) (s : Log)
    → IsSound s
    → s.ring_seq + 1 + length es < 2 ^ 32
    → pending (record_events es now s).0 ≡ latest (pending s ++ es)
pending-record_events es now s v h =
    ap pending (record_events-record_all es now s)
    ∙ pending-record_all (calls now es) s v (omega (arith, length-calls es now))
    ∙ ap (λ xs. latest (pending s ++ xs)) (events-calls es now)

module _ (counter_crc : ℕ → ℕ) (now : ℕ) (b : Boot) (s : Log) where
  -- The events that the boot diagnostics record while the journal is loaded.
  abbrev pub boot_events : List Event
  boot_events =
      let t = scan_log s in
      (Boot.loaded counter_crc now t.previous_uptime t.previous_profile t.previous_endpoint b).1

  length-boot_events : length boot_events ≤ 5
  unfolding Boot.loaded
  length-boot_events = ground arith

  loaded_log :
      pending (settings_loaded counter_crc now b s).0
      ≡ pending (record_events boot_events now (resume s)).0
  unfolding settings_loaded
  loaded_log =
      let r = record_events boot_events now (resume s) in
      elim (Bool-cases (ltb (resume s).persisted_event_seq (resume s).ring_seq)) [
        | inl some_new ↦ rw some_new (ap pending (schedule-request true now r.0))
        | inr none_new ↦ rw none_new refl
      ]

  -- When all saved blocks are read into a well-formed log that is not ready, and the 32-bit numbers
  -- last, the events recorded earlier in this boot, and the boot events
  -- after them, wait to be saved, in order, less the oldest where there are more than `ring_cap`.
  pub settings_loaded-pending :
      IsLoading s
      → pending (settings_loaded counter_crc now b s).0 ≡ latest (ring_get_ordered s ++ boot_events)
  settings_loaded-pending l =
      loaded_log
      ∙ pending-record_events boot_events now (resume s) (resume-IsSound s l)
          (omega (arith, resume_numbers s l, length-boot_events))
      ∙ ap (λ xs. latest (xs ++ boot_events)) (pending-resume s l ∙ sym (ordered-contents s))
