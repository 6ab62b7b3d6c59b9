-- ===== src/Timing/Wrappers.antt =====
-- src/diagnostic_timing.c, the wrapped functions: a flash write is recorded with its begin and its
-- end, and the end of a link before the application hears of it.
use totem_zmk_config.Prelude.{
  ℕ, ◌+◌, ◌%◌, ◌/◌, ◌^◌, Bool, List, [], ◌∷◌, ◌++◌, if◌then◌else◌, ℤ, minus_one, int8, as_int8,
  as_uint8, magnitude, min, map, codes, same_text, has_prefix,
}
use totem_zmk_config.Hevt.{Hevt}
use totem_zmk_config.Timing.{TimingRecord, Inbox}
use totem_zmk_config.Handoff.{RadioStats, totem_handoff_connected, totem_handoff_disconnected}

-- The calls of other code, in order.
pub data Action : Type 0 where
  captured : TimingRecord → Action  -- totem_diagnostic_timing_capture
  save_one : List ℕ → Action  -- __real_settings_save_one
  set_state : Action  -- __real_bt_conn_set_state

unfoldable pub category_of : List ℕ → ℕ
category_of name =
    if has_prefix name (codes "th/dlog/")
    then 1
    else if same_text name (codes "ble/active_profile")
    then 2
    else if has_prefix name (codes "ble/profiles/")
    then 3
    else if has_prefix name (codes "bt/")
    then 4
    else 5

abbrev pub timing_capture : ℕ → Hevt → ℤ → ℤ → ℕ → ℕ → ℕ → Action
timing_capture now kind idx active reason pair extra = captured (record {
  uptime_ms = now;
  type = kind;
  idx = idx;
  active = active;
  reason = reason;
  pair = pair;
  extra = extra;
})

-- __wrap_settings_save_one; `err` is what the original returns at `later`, and is returned.
unfoldable pub settings_save_one : ℕ → ℕ → List ℕ → ℤ → ℤ → Inbox → Inbox × ℤ × List Action
settings_save_one now later name active err s =
    let pair = s.write_sequence % 256 in
    (
      record s { write_sequence = (s.write_sequence + 1) % 2 ^ 32 },
      err,
      timing_capture now Hevt.flash_begin minus_one (int8 active) (category_of name) pair 0
          ∷ save_one name
          ∷ timing_capture later Hevt.flash_end minus_one (int8 active) (category_of name) pair
              (min (magnitude err) 255)
          ∷ [],
    )

-- The states that the wrapper looks for.
pub data ConnState : Type 0 where
  connected disconnect_complete other : ConnState

-- A connection, with what the wrapper reads of it.
pub record StateConn : Type 0 where
  pub is_le : Bool
  pub handle : ℕ
  pub err : ℕ

-- __wrap_bt_conn_set_state, with CONFIG_BT_LL_SW_SPLIT
pub bt_conn_set_state :
    ℕ → ℤ → StateConn → ConnState → List RadioStats → List RadioStats × List Action
bt_conn_set_state now active c connected radios =
    (if c.is_le then totem_handoff_connected c.handle radios else radios, set_state ∷ [])
bt_conn_set_state now active c disconnect_complete radios =
    let (radios', seen) = totem_handoff_disconnected now c.handle radios in
    if c.is_le
    then (
      radios',
      timing_capture now Hevt.hci_disc (as_int8 c.handle) (as_int8 (c.handle / 256)) (c.err % 256) 0
            (as_uint8 active)
          ∷ (map captured seen ++ set_state ∷ []),
    )
    else (radios, set_state ∷ [])
bt_conn_set_state now active c other radios = (radios, set_state ∷ [])
