-- ===== src/Journal/Restore/Saved.antt =====
-- What a boot takes from the saved journal about the boot before: the newest row that says it.
use totem_zmk_config.Prelude.{
  ℕ, zero, suc, ◌+◌, ◌≡◌, refl, ap, sym, subst, ◌∙◌, arith, Bool, true, false, ◌&&◌, not, List, [],
  ◌∷◌, ◌++◌, get_or, if◌then◌else◌, is_neg, minus_one, as_int8,
}
use totem_zmk_config.Config.{journal_slots}
use totem_zmk_config.Event.{Event, zero_event}
use totem_zmk_config.Journal.{Log}
use totem_zmk_config.Journal.Layout.{Block, zero_block}
use totem_zmk_config.Journal.Persist.{add32}
use totem_zmk_config.Journal.Restore.{
  ScanResult, no_scan, has_profile, has_endpoint, scan_event, scan_events, scan_slot, scan_slots,
  scan_log,
}
use totem_zmk_config.Journal.Restore.Newest.{Row, IsNewest, pick, pick_all, pick_all-IsNewest}

-- The rows of a block from place `n` on, `k` of them.
abbrev pub block_rows : Block → ℕ → ℕ → List Row
block_rows b n zero = []
block_rows b n (suc k) =
    (add32 b.first_event_seq n, get_or b.ev n zero_event) ∷ block_rows b (n + 1) k

abbrev pub rows_of : Bool → Block → List Row
rows_of valid b = if valid then block_rows b 0 b.count else []

-- The rows of the valid blocks in `k` slots.
abbrev pub slot_rows : Log → ℕ → ℕ → List Row
slot_rows s slot zero = []
slot_rows s slot (suc k) =
    rows_of (get_or s.restored_valid slot false) (get_or s.restored_blocks slot zero_block)
    ++ slot_rows s (slot + 1) k

abbrev pub saved_rows : Log → List Row
saved_rows s = slot_rows s 0 journal_slots

scan_rows : List Row → ScanResult → ScanResult
scan_rows [] t = t
scan_rows (r ∷ rs) t = scan_rows rs (scan_event r.0 r.1 t)

scan_rows-append :
    (xs ys : List Row) (t : ScanResult) → scan_rows (xs ++ ys) t ≡ scan_rows ys (scan_rows xs t)
unfolding scan_rows
scan_rows-append [] ys t = refl
scan_rows-append (x ∷ xs) ys t = scan_rows-append xs ys (scan_event x.0 x.1 t)

scan_events-scan_rows :
    (b : Block) (n k : ℕ) (t : ScanResult)
    → scan_events b.ev b.first_event_seq n k t ≡ scan_rows (block_rows b n k) t
unfolding scan_rows scan_events
scan_events-scan_rows b n zero t = refl
scan_events-scan_rows b n (suc k) t =
    scan_events-scan_rows b (n + 1) k
      (scan_event (add32 b.first_event_seq n) (get_or b.ev n zero_event) t)

scan_slot-scan_rows :
    (valid : Bool) (b : Block) (t : ScanResult)
    → scan_slot valid b t ≡ scan_rows (rows_of valid b) t
unfolding scan_rows scan_slot
scan_slot-scan_rows false b t = refl
scan_slot-scan_rows true b t = scan_events-scan_rows b 0 b.count t

scan_slots-scan_rows :
    (s : Log) (slot k : ℕ) (t : ScanResult)
    → scan_slots s slot k t ≡ scan_rows (slot_rows s slot k) t
unfolding scan_rows scan_slots
scan_slots-scan_rows s slot zero t = refl
scan_slots-scan_rows s slot (suc k) t =
    let valid = get_or s.restored_valid slot false in
    let b = get_or s.restored_blocks slot zero_block in
    scan_slots-scan_rows s (slot + 1) k (scan_slot valid b t)
    ∙ ap (scan_rows (slot_rows s (slot + 1) k)) (scan_slot-scan_rows valid b t)
    ∙ sym (scan_rows-append (rows_of valid b) (slot_rows s (slot + 1) k) t)

-- A part of the scan's result that each row changes as `pick` does is the pick of all rows.
scan_rows-pick :
    {A : Type 0} (ok : Event → Bool) (view : Event → A) (part : ScanResult → ℕ × A)
    → ((n : ℕ) (e : Event) (t : ScanResult)
        → part (scan_event n e t) ≡ pick ok view (n, e) (part t))
    → (rs : List Row) (t : ScanResult) → part (scan_rows rs t) ≡ pick_all ok view rs (part t)
unfolding scan_rows pick_all
scan_rows-pick ok view part h [] t = refl
scan_rows-pick ok view part h (r ∷ rs) t =
    scan_rows-pick ok view part h rs (scan_event r.0 r.1 t) ∙ ap (pick_all ok view rs) (h r.0 r.1 t)

abbrev pub names_profile : Event → Bool
names_profile e = has_profile e && not (is_neg e.active)

-- The rows of the whole scan.
scan_log-scan_rows :
    (s : Log) → s.journal_ready ≡ false → scan_log s ≡ scan_rows (saved_rows s) no_scan
unfolding scan_log
scan_log-scan_rows s h = rw h (scan_slots-scan_rows s 0 journal_slots no_scan)

-- A part of the scan that each row changes as `pick` does holds the newest row of its kind.
part-IsNewest :
    {A : Type 0} (ok : Event → Bool) (view : Event → A) (default : A) (part : ScanResult → ℕ × A)
    → ((n : ℕ) (e : Event) (t : ScanResult)
        → part (scan_event n e t) ≡ pick ok view (n, e) (part t))
    → part no_scan ≡ (0, default)
    → (s : Log) → s.journal_ready ≡ false
    → IsNewest ok view default (saved_rows s) (part (scan_log s)).0 (part (scan_log s)).1
part-IsNewest ok view default part h start s loading =
    let same : pick_all ok view (saved_rows s) (0, default) ≡ part (scan_log s) = sym (
      ap part (scan_log-scan_rows s loading)
      ∙ scan_rows-pick ok view part h (saved_rows s) no_scan
      ∙ ap (pick_all ok view (saved_rows s)) start) in
    subst (λ p. IsNewest ok view default (saved_rows s) p.0 p.1) same
      (pick_all-IsNewest ok view (saved_rows s) default)

-- In a journal that is still being read, the uptime that the boot takes for the last of the boot
-- before is that of the saved event with the highest number; the profile is that of the highest
-- number among those that name one, and the endpoint likewise. Each keeps its default where no such
-- event has a number over 0.
pub scan_log-IsNewest :
    (s : Log)
    → s.journal_ready ≡ false
    → let t = scan_log s in
      IsNewest (λ e. true) (λ e. e.uptime_ms) 0 (saved_rows s) t.previous_seq t.previous_uptime
      × IsNewest names_profile
          (λ e. e.active)
          minus_one
          (saved_rows s)
          t.profile_seq
          t.previous_profile
      × IsNewest has_endpoint
          (λ e. as_int8 e.extra)
          minus_one
          (saved_rows s)
          t.endpoint_seq
          t.previous_endpoint
unfolding scan_event pick
scan_log-IsNewest s h = (
  part-IsNewest (λ e. true) (λ e. e.uptime_ms) 0 (λ t. (t.previous_seq, t.previous_uptime))
      (λ n e t. ground arith) refl s h,
  part-IsNewest names_profile (λ e. e.active) minus_one (λ t. (t.profile_seq, t.previous_profile))
      (λ n e t. ground arith) refl s h,
  part-IsNewest has_endpoint (λ e. as_int8 e.extra) minus_one
      (λ t. (t.endpoint_seq, t.previous_endpoint)) (λ n e t. ground arith) refl s h,
)
