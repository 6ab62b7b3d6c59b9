-- ===== src/HidConnection.antt =====
-- src/hid_connection_log.c: the first events of each connection go to the journal, and one report at
-- a time asks for a completion callback. `Bits` holds the file's atomic bitmaps, as functions of the
-- connection's slot (`bt_conn_index`, always below CONFIG_BT_MAX_CONN). The functions return their
-- calls of other code.
pub mod Once
mod Tests
use totem_zmk_config.Prelude.{
  ℕ, ◌-◌, ◌%◌, ◌/◌, Bool, true, false, not, List, [], ◌∷◌, ◌==◌, if◌then◌else◌, bool_to_nat, ℤ,
  int8, is_neg, is_nonzero, magnitude, Option, none, some,
}
use totem_zmk_config.Hevt.{Hevt}
use totem_zmk_config.Event.{Event, event}
use totem_zmk_config.Handoff.{sign_code}

pub record Bits : Type 0 where
  pub first_attempts : ℕ → Bool
  pub first_subscriptions : ℕ → Bool
  pub first_errors : ℕ → Bool
  pub tracked_sends : ℕ → Bool
  pub first_security_requests : ℕ → Bool

abbrev pub initial : Bits
initial = record {
  first_attempts = λ slot. false;
  first_subscriptions = λ slot. false;
  first_errors = λ slot. false;
  tracked_sends = λ slot. false;
  first_security_requests = λ slot. false;
}

-- A connection, and what is asked about it: its slot, its profile, its handle if the controller
-- knows one, and its security level. `active` is the selected profile.
pub record Link : Type 0 where
  pub slot : ℕ
  pub idx : ℤ
  pub active : ℤ
  pub handle : Option ℕ
  pub security : ℕ

pub data Action : Type 0 where
  log : Event → Action
  observed : ℤ → Bool → Action  -- totem_hid_report_observed
  set_security : ℕ → Action  -- __real_bt_conn_set_security

-- atomic_set_bit and atomic_clear_bit
pub put : ℕ → Bool → (ℕ → Bool) → ℕ → Bool
put slot value bits i = if i == slot then value else bits i

-- `totem_diag_log_record` for a connection; the callee's parameters are bytes.
abbrev pub row : ℕ → Hevt → Link → ℕ → ℕ → ℕ → Action
row now kind l reason win extra =
    log (event now kind (int8 l.idx) (int8 l.active) (reason % 256) (win % 256) (extra % 256))

pub zmk_ble_advertising_observed : ℕ → ℤ → ℕ → ℤ → Event
zmk_ble_advertising_observed now active stage err =
    event now Hevt.adv_result (int8 active) (int8 active) (stage % 256) (sign_code err)
      (magnitude err % 256)

-- __wrap_bt_conn_set_security; `err` is what the real function returns, and `later` the uptime then.
pub conn_set_security : ℕ → ℕ → Link → ℕ → ℤ → Bits → Bits × List Action
conn_set_security now later l sec err s =
    if s.first_security_requests l.slot then (s, set_security sec ∷ []) else (
      record s { first_security_requests = put l.slot true s.first_security_requests },
      row now Hevt.sec_request l sec 0 l.security
          ∷ set_security sec
          ∷ row later Hevt.sec_request_result l sec (sign_code err) (magnitude err)
          ∷ [],
    )

pub zmk_hog_subscription_observed : ℕ → Link → Bits → Bits × List Action
zmk_hog_subscription_observed now l s = if s.first_subscriptions l.slot then (s, []) else (
  record s { first_subscriptions = put l.slot true s.first_subscriptions },
  row now Hevt.hid_subscribed l 0 0 0 ∷ [],
)

-- The flag is the result: whether the report is to have a completion callback.
pub zmk_hog_keyboard_report_attempted : ℕ → Link → Bool → Bits → Bits × Bool × List Action
zmk_hog_keyboard_report_attempted now l subscribed s = (
  record s {
    first_attempts = put l.slot true s.first_attempts;
    tracked_sends = put l.slot true s.tracked_sends;
  },
  not (s.tracked_sends l.slot),
  observed l.idx subscribed
      ∷ (if s.first_attempts l.slot
          then []
          else row now Hevt.hid_first_attempt l 0 0 (bool_to_nat subscribed) ∷ []),
)

-- `(uint8_t)(err ? -err : 0)`
pub error_byte : ℤ → ℕ
error_byte err = if is_neg err then magnitude err % 256 else (256 - magnitude err % 256) % 256

pub zmk_hog_keyboard_report_result : ℕ → Link → ℤ → Bits → Bits × List Action
zmk_hog_keyboard_report_result now l err s =
    let result = row now Hevt.hid_tx_result l (error_byte err) 0 (bool_to_nat (is_nonzero err)) in
    if is_nonzero err
    then (
      record s {
        tracked_sends = put l.slot false s.tracked_sends;
        first_errors = put l.slot true s.first_errors;
      },
      if s.first_errors l.slot then [] else result ∷ [],
    )
    else (s, result ∷ [])

-- The row of the handle: `totem_host_event_log_record_timing` at the uptime that is read here.
abbrev pub handle_rows : ℕ → Link → Option ℕ → List Action
handle_rows now l none = []
handle_rows now l (some handle) = row now Hevt.conn_handle l (handle % 256) 0 (handle / 256) ∷ []

pub hid_log_connected : ℕ → Link → ℕ → Bits → Bits × List Action
hid_log_connected now l err s = if not (err == 0) then (s, []) else (
  record s {
    first_attempts = put l.slot false s.first_attempts;
    first_subscriptions = put l.slot false s.first_subscriptions;
    first_errors = put l.slot false s.first_errors;
    tracked_sends = put l.slot false s.tracked_sends;
  },
  handle_rows now l l.handle,
)

pub security_log_disconnected : Link → Bits → Bits
security_log_disconnected l s = record s {
  first_security_requests = put l.slot false s.first_security_requests;
}
