-- ===== src/ExclusiveHost/Evict.antt =====
-- src/exclusive_host.c, `drop_if_non_active_host` and the scan over all links.
pub mod Safety
pub mod Cap
pub mod Whole
use totem_zmk_config.Prelude.{
  ℕ, ◌+◌, ◌-◌, ◌%◌, Bool, true, false, ◌&&◌, ◌||◌, not, List, [], ◌∷◌, ◌++◌, ltb, leb, ◌==◌,
  if◌then◌else◌, ℤ, is_neg, is_nonzero, int_eq, int8,
}
use totem_zmk_config.Config.{bg_evict_cap}
use totem_zmk_config.Hevt.{Hevt}
use totem_zmk_config.Event.{event}
use totem_zmk_config.Host.{Conn, Radio}
use totem_zmk_config.ExclusiveHost.{
  Guard, Action, log, disconnect, bg_should_ignore, bg_note_evict, thrash_win_count,
  thrash_note_bg_evict,
}

-- CONFIG_ZMK_BLE_PROFILE_HANDOFF_DISCONNECT_REASON is set by ZMK: a parameter.
module _ (evict_reason : ℕ) where
  -- The branch that keeps a host while the selected one is not linked, with its log line at most
  -- once in ten seconds.
  unfoldable pub skip_evict : ℕ → Radio → Conn → Guard → Guard × List Action
  skip_evict now r c s =
      if s.last_skip_log_ms == 0 || leb 10000 (now - s.last_skip_log_ms)
      then (
        record s { last_skip_log_ms = now },
        log (
              event now Hevt.bg_evict (int8 c.idx) (int8 r.active) 0 (thrash_win_count now s % 256)
                1)
            ∷ [],
      )
      else (s, [])

  unfoldable pub ignore_evict : ℕ → Guard → Guard × List Action
  ignore_evict now s =
      if s.last_ignore_log_ms == 0 || leb 5000 (now - s.last_ignore_log_ms)
      then (record s { last_ignore_log_ms = now }, [])
      else (s, [])

  -- From `bt_conn_disconnect` on.
  unfoldable pub evict : ℕ → Radio → Conn → Guard → Guard × List Action
  evict now r c s =
      let (s', note) = thrash_note_bg_evict now r (bg_note_evict now c.idx s) in
      if is_nonzero c.disconnect_err then (s, disconnect c.idx c.disconnect_err ∷ []) else (
        s',
        disconnect c.idx c.disconnect_err ∷ note
            ++ log (
                event now Hevt.bg_evict (int8 c.idx) (int8 r.active) (evict_reason % 256)
                  (thrash_win_count now s' % 256) 0)
              ∷ [],
      )

  -- A known link of another profile, while the selected one is up.
  unfoldable pub drop_known : ℕ → Radio → Bool → Conn → Guard → Guard × List Action
  drop_known now r force c s =
      if not force && bg_should_ignore now c.idx s
      then ignore_evict now s
      else if not force && leb bg_evict_cap (thrash_win_count now s)
      then (record s { thrash_cap_logged = true }, [])
      else evict now r c s

  unfoldable pub drop_if_non_active_host : ℕ → Radio → Bool → Conn → Guard → Guard × List Action
  drop_if_non_active_host now r force c s =
      if not c.info_ok || not c.peripheral
      then (s, [])
      else if r.hid_is_usb || r.cable_up
      then (s, [])
      else if is_neg c.idx || int_eq c.idx r.active
      then (s, [])
      else if r.is_open || not r.is_connected
      then skip_evict now r c s
      else drop_known now r force c s

  -- `bt_conn_foreach`, over the links in its order.
  unfoldable pub exclusive_host_evict_all :
      ℕ → Radio → Bool → List Conn → Guard → Guard × List Action
  exclusive_host_evict_all now r force [] s = (s, [])
  exclusive_host_evict_all now r force (c ∷ cs) s =
      let (s', acts) = drop_if_non_active_host now r force c s in
      let (s'', rest) = exclusive_host_evict_all now r force cs s' in (s'', acts ++ rest)

  -- None of the three work handlers forces.
  abbrev pub evict_work_handler : ℕ → Radio → List Conn → Guard → Guard × List Action
  evict_work_handler now r = exclusive_host_evict_all now r false

  abbrev pub retry_work_handler : ℕ → Radio → List Conn → Guard → Guard × List Action
  retry_work_handler now r = exclusive_host_evict_all now r false

  abbrev pub fallback_work_handler : ℕ → Radio → List Conn → Guard → Guard × List Action
  fallback_work_handler now r = exclusive_host_evict_all now r false
