-- ===== src/ExclusiveHost/Handlers.antt =====
-- src/exclusive_host.c: the bond healing and the callbacks of the Bluetooth host and of ZMK.
pub mod History
pub mod Calls
pub mod Capped
pub mod Rest
pub mod Switch
pub mod Suspect
use totem_zmk_config.Prelude.{
  ℕ, ◌+◌, ◌%◌, Bool, true, false, ◌&&◌, not, List, [], ◌∷◌, ◌++◌, ltb, leb, ◌==◌, if◌then◌else◌,
  bool_to_nat, ℤ, is_neg, int_eq, is_nonzero, int8,
}
use totem_zmk_config.Config.{bond_heal_threshold}
use totem_zmk_config.Hevt.{Hevt}
use totem_zmk_config.Event.{event}
use totem_zmk_config.Host.{Conn, Radio, security_l2, err_auth_fail}
use totem_zmk_config.ExclusiveHost.{
  Guard, Action, log, submit_evict, schedule_retry, reschedule_fallback, submit_bond_clear,
  clear_bonds, bg_clear_ignores, thrash_clear, thrash_win_count, class_a_note_auth_event,
}
use totem_zmk_config.ExclusiveHost.Evict.{
  evict_work_handler, retry_work_handler, fallback_work_handler,
}

pub bond_heal_clear_active_work_handler : Guard → Guard × List Action
bond_heal_clear_active_work_handler s = (record s { active_auth_fail_streak = 0 }, clear_bonds ∷ [])

-- The streak is a `uint8_t`.
pub bond_heal_note_auth_failure : Guard → Guard × List Action
bond_heal_note_auth_failure s =
    let s' = record s { active_auth_fail_streak = (s.active_auth_fail_streak + 1) % 256 } in
    (s', if ltb s'.active_auth_fail_streak bond_heal_threshold then [] else submit_bond_clear ∷ [])

pub bond_heal_note_auth_ok : Guard → Guard
bond_heal_note_auth_ok s =
    if s.active_auth_fail_streak == 0 then s else record s { active_auth_fail_streak = 0 }

-- A role as `log_host_conn_disc` records it: -1 unless the link can be read.
pub role_byte : Conn → ℕ
role_byte c = if c.info_ok then bool_to_nat c.peripheral else 255

-- `bond_heal` is CONFIG_TOTEM_BOND_HEAL.
module _ (bond_heal : Bool) (now : ℕ) (r : Radio) where
  unfoldable pub connected : Conn → ℕ → Guard → Guard × List Action
  connected c err s =
      if not (err == 0)
      then (s, log (event now Hevt.conn_fail (int8 c.idx) (int8 r.active) (err % 256) 0 0) ∷ [])
      else (
        s,
        log (event now Hevt.conn (int8 c.idx) (int8 r.active) 0 (thrash_win_count now s % 256) 0)
            ∷ submit_evict
            ∷ schedule_retry
            ∷ reschedule_fallback
            ∷ [],
      )

  -- An authentication result on the selected profile, as the class A detector takes it.
  unfoldable pub class_a_of : ℕ → ℕ → Guard → Guard × List Action
  class_a_of level err s =
      if not (err == 0)
      then class_a_note_auth_event now r true s
      else if leb security_l2 level
      then class_a_note_auth_event now r false s
      else (s, [])

  -- The same as the bond healing takes it.
  unfoldable pub heal_of : ℕ → ℕ → Guard → Guard × List Action
  heal_of level err s =
      if not bond_heal
      then (s, [])
      else if not (err == 0)
      then bond_heal_note_auth_failure s
      else if leb security_l2 level
      then (bond_heal_note_auth_ok s, [])
      else (s, [])

  unfoldable pub security_changed : Conn → ℕ → ℕ → Guard → Guard × List Action
  security_changed c level err s =
      let win = thrash_win_count now s % 256 in
      let note =
        if not (err == 0)
        then event now Hevt.sec_fail (int8 c.idx) (int8 r.active) (err % 256) win (level % 256)
        else event now Hevt.sec_ok (int8 c.idx) (int8 r.active) 0 win (level % 256) in
      let (s', acts) = if int_eq c.idx r.active then class_a_of level err s else (s, []) in
      let (s'', healing) = if int_eq c.idx r.active then heal_of level err s' else (s', []) in
      (s'', log note ∷ acts ++ healing ++ submit_evict ∷ schedule_retry ∷ [])

  unfoldable pub disconnected : Conn → ℕ → Guard → Guard × List Action
  disconnected c reason s =
      let win = thrash_win_count now s % 256 in
      let note =
        event now Hevt.disc (int8 c.idx) (int8 r.active) (reason % 256) win (role_byte c) in
      let failed = int_eq c.idx r.active && reason == err_auth_fail in
      let (s', acts) = if failed then class_a_note_auth_event now r true s else (s, []) in
      let (s'', healing) =
        if bond_heal && failed then bond_heal_note_auth_failure s' else (s', []) in
      (s'', log note ∷ acts ++ healing)

  -- `idx` is the profile of the identity that an address resolved to.
  unfoldable pub identity_resolved : ℤ → Guard → Guard × List Action
  identity_resolved idx s = (
    s,
    log (event now Hevt.identity (int8 idx) (int8 r.active) 0 0 0)
        ∷ submit_evict
        ∷ schedule_retry
        ∷ [],
  )

  -- What a switch forgets.
  unfoldable pub forget : Guard → Guard × List Action
  forget s =
      let healed = if bond_heal then record s { active_auth_fail_streak = 0 } else s in
      class_a_note_auth_event now r false (bg_clear_ignores (thrash_clear healed))

  unfoldable pub profile_changed : Guard → Guard × List Action
  profile_changed s =
      let switched =
        not (is_neg s.last_active_profile) && not (int_eq s.last_active_profile r.active) in
      let s' = record s { last_active_profile = r.active } in
      let (s'', acts) = if switched then forget s' else (s', []) in
      (
        s'',
        acts
            ++ log (
                event now Hevt.profile_changed (int8 r.active) (int8 r.active)
                  (bool_to_nat r.is_connected) 0 (bool_to_nat r.is_open))
              ∷ submit_evict
              ∷ schedule_retry
              ∷ [],
      )

-- What can reach the module: a callback, or one of its works running.
pub data Signal : Type 0 where
  on_connected : Conn → ℕ → Signal
  on_security : Conn → ℕ → ℕ → Signal
  on_disconnected : Conn → ℕ → Signal
  on_identity : ℤ → Signal
  on_profile : Signal
  on_evict_work : List Conn → Signal
  on_retry_work : List Conn → Signal
  on_fallback_work : List Conn → Signal
  on_bond_clear_work : Signal

unfoldable pub handle : ℕ → Bool → ℕ → Radio → Signal → Guard → Guard × List Action
handle evict_reason bond_heal now r (on_connected c err) s = connected bond_heal now r c err s
handle evict_reason bond_heal now r (on_security c level err) s =
    security_changed bond_heal now r c level err s
handle evict_reason bond_heal now r (on_disconnected c reason) s =
    disconnected bond_heal now r c reason s
handle evict_reason bond_heal now r (on_identity idx) s = identity_resolved bond_heal now r idx s
handle evict_reason bond_heal now r on_profile s = profile_changed bond_heal now r s
handle evict_reason bond_heal now r (on_evict_work cs) s =
    evict_work_handler evict_reason now r cs s
handle evict_reason bond_heal now r (on_retry_work cs) s =
    retry_work_handler evict_reason now r cs s
handle evict_reason bond_heal now r (on_fallback_work cs) s =
    fallback_work_handler evict_reason now r cs s
handle evict_reason bond_heal now r on_bond_clear_work s = bond_heal_clear_active_work_handler s
