-- ===== src/ReconnectWatch.antt =====
-- src/reconnect_watch.c: the recovery ladder of a profile whose computer does not come up.
-- `Watch` holds the file's static variables and the delay that the delayable work was last
-- scheduled with, while it waits. Lines that are only printed are left out.
pub mod Ladder
pub mod Rest
pub mod Safety
pub mod References
mod Tests
use totem_zmk_config.Prelude.{
  ℕ, ◌+◌, ◌*◌, ◌%◌, Bool, true, false, ◌&&◌, ◌||◌, not, List, [], ◌∷◌, ◌++◌, Option, none, some,
  ltb, leb, ◌==◌, if◌then◌else◌, bool_to_nat, ℤ, pos, is_neg, int_eq, int8,
}
use totem_zmk_config.Config.{reconnect_watch_sec, adv_boost_sec}
use totem_zmk_config.Hevt.{Hevt}
use totem_zmk_config.Event.{Event, event}
use totem_zmk_config.Host.{Conn, Radio, security_l2, err_remote_user_term}

-- enum reconnect_step
pub data Step : Type 0 where
  step_none step_readv step_evict step_zombie : Step

pub record Watch : Type 0 where
  pub next_step : Step
  pub ladder_from_active_down : Bool
  pub watch_profile_index : ℤ
  pub timer : Option ℕ  -- reconnect_watch_work: its delay in seconds, if it is scheduled

abbrev pub initial : Watch
initial = record {
  next_step = step_none;
  ladder_from_active_down = false;
  watch_profile_index = pos 0;
  timer = none;
}

-- The calls that leave the module.
pub data Action : Type 0 where
  log : Event → Action  -- totem_host_event_log_record
  boost_rearm : Action  -- zmk_ble_adv_boost_rearm
  disconnect : ℤ → ℕ → Action  -- bt_conn_disconnect: the profile and the reason
  submit_active_down_arm : Action  -- k_work_submit(&active_down_arm_work)

unfoldable pub is_none : Step → Bool
is_none step_none = true
is_none _ = false

-- CONFIG_ZMK_BLE_ADV_BOOST is set.
pub reconnect_watch_first_delay_sec : ℕ
reconnect_watch_first_delay_sec =
    if ltb reconnect_watch_sec adv_boost_sec then adv_boost_sec else reconnect_watch_sec

-- k_work_schedule: a delay that runs is left alone; k_work_reschedule: it starts again.
pub schedule : ℕ → Watch → Watch
schedule sec s = record s { timer = elim s.timer [ none ↦ some sec | some t ↦ some t ] }

pub reschedule : ℕ → Watch → Watch
reschedule sec s = record s { timer = some sec }

pub record Scan : Type 0 where
  pub active_match : Option Conn
  pub any_host : Option Conn
  pub host_count : ℕ

-- The first connection that is kept stays.
pub keep_first : Option Conn → Conn → Option Conn
keep_first none c = some c
keep_first (some d) c = some d

pub scan_host_conns : ℤ → Conn → Scan → Scan
scan_host_conns active c scan =
    if not c.info_ok || not c.peripheral then scan else if not c.connected then scan else record {
      active_match =
          if int_eq c.idx active then keep_first scan.active_match c else scan.active_match;
      any_host = keep_first scan.any_host c;
      host_count = scan.host_count + 1;
    }

-- `bt_conn_foreach` with it.
pub scan_all : ℤ → List Conn → Scan → Scan
scan_all active [] scan = scan
scan_all active (c ∷ cs) scan = scan_all active cs (scan_host_conns active c scan)

abbrev pub empty_scan : Scan
empty_scan = record { active_match = none; any_host = none; host_count = 0 }

pub drop_non_active_host : ℤ → Conn → List Action
drop_non_active_host active c =
    if not c.info_ok || not c.peripheral
    then []
    else if is_neg c.idx || int_eq c.idx active
    then []
    else if ltb c.security security_l2
    then []
    else disconnect c.idx err_remote_user_term ∷ []

pub drop_non_active_hosts : ℤ → List Conn → List Action
drop_non_active_hosts active [] = []
drop_non_active_hosts active (c ∷ cs) =
    drop_non_active_host active c ++ drop_non_active_hosts active cs

-- The cancelled work does not run.
pub reconnect_watch_reset : Watch → Watch
reconnect_watch_reset s = record s {
  next_step = step_none;
  ladder_from_active_down = false;
  timer = none;
}

module _ (now : ℕ) (r : Radio) where
  -- One row of the log, for the selected profile twice.
  abbrev pub note : Hevt → ℕ → ℕ → ℕ → Action
  note kind reason win extra = log (event now kind (int8 r.active) (int8 r.active) reason win extra)

  -- The `switch` of the work handler.
  pub climb : ℕ → List Conn → Step → Watch → Watch × List Action
  climb hosts cs step_readv s = (
    schedule reconnect_watch_sec (record s { next_step = step_evict }),
    note Hevt.watch_step 1 (hosts % 256) (bool_to_nat s.ladder_from_active_down) ∷ boost_rearm ∷ [],
  )
  climb hosts cs step_evict s = (
    schedule reconnect_watch_sec (record s { next_step = step_zombie }),
    note Hevt.watch_step 2 (hosts % 256) (bool_to_nat s.ladder_from_active_down)
        ∷ drop_non_active_hosts r.active cs,
  )
  climb hosts cs step_zombie s = (
    reconnect_watch_reset s,
    note Hevt.watch_step 3 (hosts % 256) (bool_to_nat s.ladder_from_active_down) ∷ [],
  )
  climb hosts cs step_none s = (reconnect_watch_reset s, [])

  pub reconnect_watch_work_handler : List Conn → Watch → Watch × List Action
  reconnect_watch_work_handler cs s =
      if r.hid_is_usb || r.cable_up || r.adv_suppressed
      then (reconnect_watch_reset s, [])
      else if r.is_open
      then (reconnect_watch_reset s, [])
      else if r.is_connected
      then (reconnect_watch_reset s, [])
      else elim (scan_all r.active cs empty_scan).active_match [
        | some c ↦ (reconnect_watch_reset s, [])
        | none ↦ climb (scan_all r.active cs empty_scan).host_count cs s.next_step s
      ]

  pub reconnect_watch_arm_full : Watch → Watch × List Action
  reconnect_watch_arm_full s =
      if r.hid_is_usb || r.cable_up || r.adv_suppressed
      then (reconnect_watch_reset s, [])
      else if r.is_open || r.is_connected
      then (reconnect_watch_reset s, [])
      else (
        reschedule reconnect_watch_first_delay_sec
            (record s { ladder_from_active_down = false; next_step = step_readv }),
        note Hevt.watch_arm (reconnect_watch_first_delay_sec % 256) 0 0 ∷ [],
      )

  pub reconnect_watch_arm_light : Watch → Watch × List Action
  reconnect_watch_arm_light s =
      if r.hid_is_usb || r.cable_up
      then (s, [])
      else if r.is_open || r.is_connected
      then (reconnect_watch_reset s, [])
      else if r.adv_suppressed
      then (s, [])
      else if not (is_none s.next_step)
      then (s, [])
      else (
        reschedule reconnect_watch_sec
            (record s { ladder_from_active_down = true; next_step = step_readv }),
        note Hevt.watch_arm (reconnect_watch_sec % 256) 0 1 ∷ [],
      )

  pub totem_reconnect_watch_arm_if_needed : Watch → Watch × List Action
  totem_reconnect_watch_arm_if_needed s = reconnect_watch_arm_light s

  -- CONFIG_TOTEM_RECONNECT_WATCH_ON_ACTIVE_DOWN is `on_active_down`.
  pub active_down_arm_work_handler : Bool → Watch → Watch × List Action
  active_down_arm_work_handler on_active_down s =
      if not on_active_down
      then (s, [])
      else if r.is_open || r.adv_suppressed || r.is_connected || not (is_none s.next_step)
      then (s, [])
      else (let (s', acts) = reconnect_watch_arm_light s in
          (s', note Hevt.active_down_arm 0 0 0 ∷ acts))

  pub profile_changed : Watch → Watch × List Action
  profile_changed s =
      if int_eq r.active s.watch_profile_index
      then (s, [])
      else reconnect_watch_arm_full (record s { watch_profile_index = r.active })

  pub connected : ℕ → Watch → Watch
  connected err s =
      if not (err == 0) then s else if r.is_connected then reconnect_watch_reset s else s

  pub disconnected : Bool → Conn → List Action
  disconnected on_active_down c =
      if r.hid_is_usb || r.cable_up
      then []
      else if is_neg c.idx || not (int_eq c.idx r.active)
      then []
      else if not on_active_down
      then []
      else submit_active_down_arm ∷ []

  pub security_changed : ℕ → Watch → Watch
  security_changed level s =
      if leb security_l2 level && r.is_connected then reconnect_watch_reset s else s

  -- Also `reconnect_watch_settings_commit`.
  pub reconnect_watch_init : Watch → Watch
  reconnect_watch_init s = record s { watch_profile_index = r.active }
