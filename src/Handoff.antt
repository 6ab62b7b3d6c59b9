-- ===== src/Handoff.antt =====
-- src/handoff_diagnostics.c: what the radio did between the request to leave a computer and the end
-- of the link, for each connection handle. `List RadioStats` is the array `radios`. The calls of
-- `totem_diagnostic_timing_capture` are returned in order.
pub mod Counts
pub mod Controller
mod Tests
use totem_zmk_config.Prelude.{
  ℕ, ◌+◌, ◌%◌, ◌/◌, Bool, true, false, ◌&&◌, ◌||◌, not, List, [], ◌∷◌, ◌++◌, length, get_or, set,
  ltb, leb, ◌==◌, if◌then◌else◌, bool_to_nat, ℤ, is_neg, is_nonzero, int_eq, as_int8, min,
  magnitude, replicate, as_uint8,
}
use totem_zmk_config.Hevt.{Hevt}
use totem_zmk_config.Timing.{TimingRecord}

-- struct handoff_radio
pub record RadioStats : Type 0 where
  pub armed : Bool
  pub rx_known : Bool
  pub first_bad : Bool
  pub last_rx : ℕ
  pub done : ℕ
  pub bad : ℕ
  pub aborted : ℕ
  pub skipped : ℕ
  pub rx_packets : ℕ
  pub no_rx : ℕ
  pub invalid_rx : ℕ
  pub mic_pass : ℕ
  pub mic_fail : ℕ
  pub tx_setups : ℕ
  pub tx_completed : ℕ
  pub tx_uncompleted : ℕ
  pub first_tx_setup : ℕ
  pub first_tx_end : ℕ
  pub last_tx_end : ℕ

abbrev pub zero_radio : RadioStats
zero_radio = record {
  armed = false;
  rx_known = false;
  first_bad = false;
  last_rx = 0;
  done = 0;
  bad = 0;
  aborted = 0;
  skipped = 0;
  rx_packets = 0;
  no_rx = 0;
  invalid_rx = 0;
  mic_pass = 0;
  mic_fail = 0;
  tx_setups = 0;
  tx_completed = 0;
  tx_uncompleted = 0;
  first_tx_setup = 0;
  first_tx_end = 0;
  last_tx_end = 0;
}

abbrev pub radio_at : List RadioStats → ℕ → RadioStats
radio_at radios handle = get_or radios handle zero_radio

-- CONFIG_BT_MAX_CONN slots.
abbrev pub initial : ℕ → List RadioStats
initial max_conn = replicate max_conn zero_radio

-- `handle` splits into two signed bytes.
pub capture : ℕ → Hevt → ℕ → ℕ → ℕ → ℕ → TimingRecord
capture time kind handle stage low high = record {
  uptime_ms = time;
  type = kind;
  idx = as_int8 handle;
  active = as_int8 (handle / 256);
  reason = stage;
  pair = low;
  extra = high;
}

pub capture_value : ℕ → Hevt → ℕ → ℕ → ℕ → TimingRecord
capture_value now kind handle stage value =
    capture now kind handle stage (value % 256) (value / 256 % 256)

-- A sum that stops at 65535; `count` is 32 bits wide, and so is their sum.
pub add_count : ℕ → ℕ → ℕ
add_count value count = min ((value + count) % 4294967296) 65535

pub totem_handoff_tx_armed : List RadioStats → ℕ → Bool
totem_handoff_tx_armed radios handle =
    if leb (length radios) handle then false else (radio_at radios handle).armed

pub setup_radio : ℕ → RadioStats → RadioStats
setup_radio now r =
    if r.armed
    then record r {
      first_tx_setup = if r.tx_setups == 0 then now else r.first_tx_setup;
      tx_setups = add_count r.tx_setups 1;
    }
    else r

pub totem_handoff_tx_setup : ℕ → ℕ → List RadioStats → List RadioStats
totem_handoff_tx_setup now handle radios =
    if leb (length radios) handle
    then radios
    else set radios handle (setup_radio now (radio_at radios handle))

pub result_radio : ℕ → Bool → RadioStats → RadioStats
result_radio now completed r =
    if not r.armed
    then r
    else if completed
    then record r {
      first_tx_end = if r.tx_completed == 0 then now else r.first_tx_end;
      last_tx_end = now;
      tx_completed = add_count r.tx_completed 1;
    }
    else record r { tx_uncompleted = add_count r.tx_uncompleted 1 }

pub totem_handoff_tx_result : ℕ → ℕ → Bool → List RadioStats → List RadioStats
totem_handoff_tx_result now handle completed radios =
    if leb (length radios) handle
    then radios
    else set radios handle (result_radio now completed (radio_at radios handle))

pub totem_handoff_connected : ℕ → List RadioStats → List RadioStats
totem_handoff_connected handle radios =
    if leb (length radios) handle then radios else set radios handle zero_radio

-- The rows of an armed connection that ended.
pub summary : ℕ → ℕ → RadioStats → List TimingRecord
summary now handle r =
    capture_value now Hevt.handoff_radio handle 0 r.done
    ∷ capture_value now Hevt.handoff_radio handle 1 r.bad
    ∷ capture_value now Hevt.handoff_radio handle 2 r.aborted
    ∷ capture_value now Hevt.handoff_radio handle 3 r.skipped
    ∷ capture_value now Hevt.handoff_radio handle 7 r.rx_packets
    ∷ capture_value now Hevt.handoff_radio handle 8 r.no_rx
    ∷ capture_value now Hevt.handoff_radio handle 9 r.invalid_rx
    ∷ capture_value now Hevt.handoff_radio handle 10 r.mic_pass
    ∷ capture_value now Hevt.handoff_radio handle 11 r.mic_fail
    ∷ capture (if r.rx_known then r.last_rx else now) Hevt.handoff_radio handle 5 0
        (bool_to_nat r.rx_known)
    ∷ capture_value now Hevt.handoff_tx handle 0 r.tx_setups
    ∷ capture_value now Hevt.handoff_tx handle 1 r.tx_completed
    ∷ capture_value now Hevt.handoff_tx handle 2 r.tx_uncompleted
    ∷ capture (if r.tx_setups == 0 then now else r.first_tx_setup) Hevt.handoff_tx handle 3 0
        (bool_to_nat (not (r.tx_setups == 0)))
    ∷ capture (if r.tx_completed == 0 then now else r.first_tx_end) Hevt.handoff_tx handle 4 0
        (bool_to_nat (not (r.tx_completed == 0)))
    ∷ capture (if r.tx_completed == 0 then now else r.last_tx_end) Hevt.handoff_tx handle 5 0
        (bool_to_nat (not (r.tx_completed == 0)))
    ∷ []

pub totem_handoff_disconnected : ℕ → ℕ → List RadioStats → List RadioStats × List TimingRecord
totem_handoff_disconnected now handle radios =
    if leb (length radios) handle then (radios, []) else (
      set radios handle zero_radio,
      if (radio_at radios handle).armed then summary now handle (radio_at radios handle) else [],
    )

-- A connection event as the link layer reports it, with what the wrapper reads of the connection.
pub record EventDone : Type 0 where
  pub peripheral : Bool  -- conn->lll.role
  pub crc_valid : Bool
  pub is_aborted : Bool
  pub trx_cnt : ℕ
  pub mic_is_pass : Bool
  pub mic_is_fail : Bool
  pub lazy_prepare : ℕ
  pub latency_event : ℕ
  pub is_must_expire : Bool

abbrev pub is_valid : EventDone → Bool
is_valid e = e.crc_valid && not e.is_aborted

-- The counters of an armed connection, with encryption and connection metadata configured.
pub count_event : EventDone → RadioStats → RadioStats
count_event e r = record r {
  done = add_count r.done 1;
  bad = add_count r.bad (bool_to_nat (not (is_valid e)));
  aborted = add_count r.aborted (bool_to_nat e.is_aborted);
  rx_packets = add_count r.rx_packets e.trx_cnt;
  no_rx = add_count r.no_rx (bool_to_nat (not e.is_aborted && e.trx_cnt == 0));
  invalid_rx =
      add_count r.invalid_rx
        (bool_to_nat (not e.is_aborted && not (e.trx_cnt == 0) && not e.crc_valid));
  mic_pass = add_count r.mic_pass (bool_to_nat e.mic_is_pass);
  mic_fail = add_count r.mic_fail (bool_to_nat e.mic_is_fail);
  skipped =
      add_count r.skipped (e.lazy_prepare + (if e.is_must_expire then 0 else e.latency_event));
  first_bad = r.first_bad || not (is_valid e);
}

pub done_radio : ℕ → EventDone → RadioStats → RadioStats
done_radio now e r =
    let seen = if is_valid e then record r { rx_known = true; last_rx = now } else r in
    if seen.armed then count_event e seen else seen

-- __wrap_ull_conn_done, less the call of the original.
pub ull_conn_done : ℕ → ℕ → EventDone → List RadioStats → List RadioStats × List TimingRecord
ull_conn_done now handle e radios =
    if ltb handle (length radios) && e.peripheral
    then (
      set radios handle (done_radio now e (radio_at radios handle)),
      if (radio_at radios handle).armed
            && (not (is_valid e) && not (radio_at radios handle).first_bad)
          then capture now Hevt.handoff_radio handle 6 0 (bool_to_nat e.is_aborted) ∷ []
          else [],
    )
    else (radios, [])

-- A request to disconnect, with what the wrapper reads and the result of the original.
pub record Request : Type 0 where
  pub info_ok : Bool
  pub is_le : Bool
  pub peripheral : Bool
  pub connected : Bool
  pub usb_powered : Bool
  pub profile : ℤ
  pub active : ℤ
  pub handle_ok : Bool
  pub handle : ℕ
  pub reason : ℕ
  pub interval : ℕ
  pub latency : ℕ
  pub timeout : ℕ
  pub err : ℤ

-- The link of a computer whose profile is known and no longer selected, with no cable.
pub is_handoff : List RadioStats → Request → Bool
is_handoff radios q =
    q.info_ok
    && q.is_le
    && q.peripheral
    && q.connected
    && not q.usb_powered
    && not (is_neg q.profile)
    && not (int_eq q.profile q.active)
    && q.handle_ok
    && ltb q.handle (length radios)

-- `err < 0 ? 1 : err > 0 ? 2 : 0`
pub sign_code : ℤ → ℕ
sign_code err = if is_neg err then 1 else if is_nonzero err then 2 else 0

pub arm : RadioStats → RadioStats
arm previous = record zero_radio {
  armed = true;
  rx_known = previous.rx_known;
  last_rx = previous.last_rx;
}

-- __wrap_bt_conn_disconnect; the connection events that the original lets happen are left out.
pub bt_conn_disconnect : ℕ → Request → List RadioStats → List RadioStats × List TimingRecord
bt_conn_disconnect now q radios =
    if not (is_handoff radios q)
    then (radios, [])
    else (let previous = radio_at radios q.handle in
        let armed_radios = set radios q.handle (arm previous) in
        (
          if is_nonzero q.err
              then set armed_radios q.handle (record (arm previous) { armed = false })
              else armed_radios,
          capture now Hevt.handoff_term q.handle 0 0 q.reason
              ∷ capture_value now Hevt.handoff_param q.handle 0 q.interval
              ∷ capture_value now Hevt.handoff_param q.handle 1 q.latency
              ∷ capture_value now Hevt.handoff_param q.handle 2 q.timeout
              ∷ capture (if previous.rx_known then previous.last_rx else now) Hevt.handoff_radio
                  q.handle 4 0 (bool_to_nat previous.rx_known)
              ∷ capture now Hevt.handoff_term q.handle 1 (sign_code q.err)
                  (min (magnitude q.err) 255)
              ∷ [],
        ))
