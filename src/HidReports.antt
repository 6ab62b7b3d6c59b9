-- ===== src/HidReports.antt =====
-- src/hid_report_diagnostics.c: how many keyboard reports reached each stage on the way to a
-- computer, for each profile. `Counts` is the array `counts`, a list of stages for each profile;
-- `Worker` holds what only the worker of the queue accesses. The wrappers return the calls of
-- `count_event` that they make; the results of the wrapped functions are arguments.
pub mod Flush
pub mod Fate
mod Tests
use totem_zmk_config.Prelude.{
  ℕ, zero, suc, ◌+◌, ◌%◌, ◌/◌, Bool, true, false, ◌&&◌, ◌||◌, not, List, [], ◌∷◌, ◌++◌, length,
  get_or, set, leb, ◌==◌, if◌then◌else◌, replicate, ℤ, pos, minus_one, is_neg, is_nonzero,
  magnitude, min,
}
use totem_zmk_config.Hevt.{Hevt}
use totem_zmk_config.Timing.{TimingRecord}

-- enum hid_stage, by its value
abbrev pub release_ok : ℕ
release_ok = 0

abbrev pub release_failed : ℕ
release_failed = 1

abbrev pub queued : ℕ
queued = 2

abbrev pub queue_failed : ℕ
queue_failed = 3

abbrev pub dequeued : ℕ
dequeued = 4

abbrev pub evicted : ℕ
evicted = 5

abbrev pub no_host_drop : ℕ
no_host_drop = 6

abbrev pub notify_accepted : ℕ
notify_accepted = 7

abbrev pub notify_failed : ℕ
notify_failed = 8

abbrev pub unsubscribed : ℕ
unsubscribed = 9

abbrev pub all_up_queued : ℕ
all_up_queued = 10

abbrev pub all_up_accepted : ℕ
all_up_accepted = 11

abbrev pub all_up_evicted : ℕ
all_up_evicted = 12

abbrev pub all_up_failed : ℕ
all_up_failed = 13

abbrev pub hid_stage_count : ℕ
hid_stage_count = 14

-- struct hid_count
pub record HidCount : Type 0 where
  pub last_ms : ℕ
  pub total : ℕ  -- uint16
  pub error : ℕ  -- uint8
  pub dirty : Bool

abbrev pub no_count : HidCount
no_count = record { last_ms = 0; total = 0; error = 0; dirty = false }

abbrev pub Counts : Type 0
Counts = List (List HidCount)

-- For `n` profiles.
abbrev pub initial : ℕ → Counts
initial n = replicate n (replicate hid_stage_count no_count)

-- `MIN(err < 0 ? -err : err, UINT8_MAX)`
pub error_byte : ℤ → ℕ
error_byte err = min (magnitude err) 255

-- The section of `count_event` under the lock, for one counter.
pub count_one : ℕ → ℤ → HidCount → HidCount
count_one now err c = record {
  last_ms = now;
  total = (c.total + 1) % 65536;
  error = if is_nonzero err then error_byte err else c.error;
  dirty = true;
}

pub out_of_range : ℤ → Counts → Bool
out_of_range profile counts = is_neg profile || leb (length counts) (magnitude profile)

-- The flag is the call of `k_work_schedule` for the summary, five seconds later at the earliest.
pub count_event : ℕ → ℤ → ℕ → ℤ → Counts → Counts × Bool
count_event now profile stage err counts =
    let row = get_or counts (magnitude profile) [] in
    if out_of_range profile counts then (counts, false) else (
      set counts (magnitude profile)
          (set row stage (count_one now err (get_or row stage no_count))),
      true,
    )

abbrev pub count_row : Hevt → ℕ → ℕ → HidCount → ℕ → ℕ → TimingRecord
count_row kind profile stage c low high = record {
  uptime_ms = c.last_ms;
  type = kind;
  idx = pos profile;
  active = minus_one;
  reason = stage;
  pair = low;
  extra = high;
}

-- What one round of `flush_counts` records of a counter.
pub flush_rows : ℕ → ℕ → HidCount → List TimingRecord
flush_rows profile stage c =
    if not c.dirty
    then []
    else count_row Hevt.hid_count profile stage c (c.total % 256) (c.total / 256)
      ∷ (if c.error == 0 then [] else count_row Hevt.hid_error profile stage c c.error 0 ∷ [])

abbrev pub flushed : HidCount → HidCount
flushed c = record c { dirty = false; error = 0 }

-- The inner loop, from `stage` on: the counters, the rows, and whether one was dirty.
pub flush_stages : ℕ → ℕ → List HidCount → List HidCount × List TimingRecord × Bool
flush_stages profile stage [] = ([], [], false)
flush_stages profile stage (c ∷ cs) =
    let (cs', rows, changed) = flush_stages profile (stage + 1) cs in
    (flushed c ∷ cs', flush_rows profile stage c ++ rows, c.dirty || changed)

-- The outer loop, from `profile` on.
pub flush_profiles : ℕ → Counts → Counts × List TimingRecord × Bool
flush_profiles profile [] = ([], [], false)
flush_profiles profile (cs ∷ counts) =
    let (cs', rows, changed) = flush_stages profile 0 cs in
    let (counts', rest, more) = flush_profiles (profile + 1) counts in
    (cs' ∷ counts', rows ++ rest, changed || more)

-- The flag is the call of `totem_host_event_log_persist`.
pub flush_counts : Counts → Counts × List TimingRecord × Bool
flush_counts counts = flush_profiles 0 counts

-- A keyboard report.
pub record Report : Type 0 where
  pub modifiers : ℕ
  pub keys : List ℕ

pub no_key : List ℕ → Bool
no_key [] = true
no_key (k ∷ ks) = k == 0 && no_key ks

pub all_up : Report → Bool
all_up r = r.modifiers == 0 && no_key r.keys

pub record Worker : Type 0 where
  pub dequeued_report : Bool
  pub all_up_report : Bool
  pub keyboard_notify : Bool
  pub notify_profile : ℤ

-- A call of `count_event`: the profile, the stage and the error.
pub record Count : Type 0 where
  pub profile : ℤ
  pub stage : ℕ
  pub err : ℤ

abbrev pub count : ℤ → ℕ → ℤ → Count
count profile stage err = record { profile = profile; stage = stage; err = err }

-- __wrap_zmk_hid_release; `trace` is whether the usage is a key and the endpoint not USB.
pub hid_release : ℤ → Bool → ℤ → List Count
hid_release profile trace err =
    if not trace
    then []
    else if is_neg err
    then count profile release_failed err ∷ []
    else count profile release_ok (pos 0) ∷ []

-- __wrap_z_impl_k_msgq_put, for the queue of the keyboard.
pub msgq_put : ℤ → Report → ℤ → List Count
msgq_put profile report err =
    if is_nonzero err
    then count profile queue_failed err ∷ []
    else if all_up report
    then count profile queued (pos 0) ∷ count profile all_up_queued (pos 0) ∷ []
    else count profile queued (pos 0) ∷ []

-- __wrap_z_impl_k_msgq_get, for that queue; `worker` is whether its worker calls.
pub msgq_get : ℤ → Bool → Report → ℤ → Worker → Worker × List Count
msgq_get profile worker report err w =
    let took = if worker then record w { dequeued_report = not (is_nonzero err) } else w in
    if is_nonzero err
    then (took, [])
    else if worker
    then (record took { all_up_report = all_up report }, count profile dequeued (pos 0) ∷ [])
    else if all_up report
    then (took, count profile evicted (pos 0) ∷ count profile all_up_evicted (pos 0) ∷ [])
    else (took, count profile evicted (pos 0) ∷ [])

-- __wrap_zmk_ble_active_profile_conn; `found` is whether there is a connection.
pub active_profile_conn : ℤ → Bool → Bool → Worker → Worker × List Count
active_profile_conn profile worker found w =
    if not found && worker && w.dequeued_report
    then (record w { dequeued_report = false }, count profile no_host_drop (pos 0) ∷ [])
    else (w, [])

-- `profile` is that of the connection.
pub totem_hid_report_observed : ℤ → Bool → Worker → Worker × List Count
totem_hid_report_observed profile subscribed w = (
  record w { notify_profile = profile; keyboard_notify = true; dequeued_report = false },
  if subscribed then [] else count profile unsubscribed (pos 0) ∷ [],
)

-- __wrap_bt_gatt_notify_cb
pub notify_cb : Bool → ℤ → Worker → Worker × List Count
notify_cb worker err w =
    let failed = is_nonzero err in
    let first = count w.notify_profile (if failed then notify_failed else notify_accepted) err in
    let second = count w.notify_profile (if failed then all_up_failed else all_up_accepted) err in
    if not (worker && w.keyboard_notify) then (w, []) else (
      record w { keyboard_notify = false },
      if w.all_up_report then first ∷ second ∷ [] else first ∷ [],
    )
