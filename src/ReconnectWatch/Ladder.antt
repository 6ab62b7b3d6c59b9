-- ===== src/ReconnectWatch/Ladder.antt =====
-- The ladder ends, and it never stalls.
use totem_zmk_config.Prelude.{
  ℕ, ◌-◌, ◌≤◌, ◌≡◌, ◌∙◌, refl, ap, arith, Bool, true, false, List, [], Option, none, some, inl, inr,
  Option-cases,
}
use totem_zmk_config.Host.{Conn, Radio}
use totem_zmk_config.ReconnectWatch.{
  Step, step_none, step_readv, step_evict, step_zombie, Watch, Action, is_none, schedule,
  reschedule, scan_all, empty_scan, reconnect_watch_reset, climb, reconnect_watch_work_handler,
  reconnect_watch_arm_full, reconnect_watch_arm_light, active_down_arm_work_handler,
  profile_changed, connected, security_changed, reconnect_watch_init,
}

-- A moment at which the kernel looks at the work: the uptime, the radio, the links.
pub record Tick : Type 0 where
  pub now : ℕ
  pub radio : Radio
  pub conns : List Conn

-- The delayable work runs if it is scheduled, and is then no longer.
unfoldable pub fire : Tick → Watch → Watch × List Action
fire t s = elim s.timer [
  | none ↦ (s, [])
  | some sec ↦ reconnect_watch_work_handler t.now t.radio t.conns (record s { timer = none })
]

-- The work is not scheduled.
unfoldable pub is_idle : Option ℕ → Bool
is_idle none = true
is_idle (some sec) = false

-- A step waits exactly when the work is scheduled.
abbrev pub IsArmed : Watch → Type 0
IsArmed s = is_none s.next_step ≡ is_idle s.timer

-- The runs of the work that a step still needs.
pub rank : Step → ℕ
rank step_none = 0
rank step_readv = 3
rank step_evict = 2
rank step_zombie = 1

module _ (now : ℕ) (r : Radio) where
  pub reset-IsArmed :
      (s : Watch)
      → IsArmed (reconnect_watch_reset s) × (rank (reconnect_watch_reset s).next_step ≡ 0)
  unfolding reconnect_watch_reset rank is_none is_idle
  reset-IsArmed s = (refl, refl)

  climb-rank :
      (hosts : ℕ) (cs : List Conn) (step : Step) (s : Watch)
      → s.timer ≡ none
      → let s' = (climb now r hosts cs step s).0 in IsArmed s' × (rank s'.next_step ≡ rank step - 1)
  unfolding climb schedule reconnect_watch_reset rank is_none is_idle
  climb-rank hosts cs step_none s h = ground arith
  climb-rank hosts cs step_readv s h = ground arith
  climb-rank hosts cs step_evict s h = ground arith
  climb-rank hosts cs step_zombie s h = ground arith

  work-rank :
      (cs : List Conn) (s : Watch)
      → s.timer ≡ none
      → let s' = (reconnect_watch_work_handler now r cs s).0 in
        IsArmed s' × (rank s'.next_step ≤ rank s.next_step - 1)
  unfolding reconnect_watch_work_handler
  work-rank cs s h = ground (
    arith,
    climb-rank (scan_all r.active cs empty_scan).host_count cs s.next_step s h,
    reset-IsArmed s,
  )

  arm_full-IsArmed : (s : Watch) → IsArmed (reconnect_watch_arm_full now r s).0
  unfolding reconnect_watch_arm_full reconnect_watch_reset reschedule is_none is_idle
  arm_full-IsArmed s = ground arith

  arm_light-IsArmed : (s : Watch) → IsArmed s → IsArmed (reconnect_watch_arm_light now r s).0
  unfolding reconnect_watch_arm_light reconnect_watch_reset reschedule is_none is_idle
  arm_light-IsArmed s h = ground arith

  arm_work-IsArmed :
      (on_active_down : Bool) (s : Watch)
      → IsArmed s
      → IsArmed (active_down_arm_work_handler now r on_active_down s).0
  unfolding active_down_arm_work_handler
  arm_work-IsArmed on s h = ground (arith, arm_light-IsArmed s h)

-- What can reach the module; a disconnection only submits the work `on_arm_work`.
pub data Signal : Type 0 where
  on_timer : List Conn → Signal
  on_arm_work : Signal
  on_storm : Signal  -- totem_reconnect_watch_arm_if_needed
  on_profile : Signal
  on_connected : ℕ → Signal
  on_security : ℕ → Signal
  on_commit : Signal

-- The state after a signal; `on_active_down` is CONFIG_TOTEM_RECONNECT_WATCH_ON_ACTIVE_DOWN.
unfoldable pub handle : Bool → ℕ → Radio → Signal → Watch → Watch
handle on now r (on_timer cs) s = (fire (record { now = now; radio = r; conns = cs }) s).0
handle on now r on_arm_work s = (active_down_arm_work_handler now r on s).0
handle on now r on_storm s = (reconnect_watch_arm_light now r s).0
handle on now r on_profile s = (profile_changed now r s).0
handle on now r (on_connected err) s = connected now r err s
handle on now r (on_security level) s = security_changed now r level s
handle on now r on_commit s = reconnect_watch_init now r s

is_none-rank : (step : Step) → is_none step ≡ true → rank step ≡ 0
unfolding is_none rank
is_none-rank step h = ground arith

pub fire-rank :
    (t : Tick) (s : Watch)
    → IsArmed s
    → IsArmed (fire t s).0 × (rank (fire t s).0.next_step ≤ rank s.next_step - 1)
unfolding fire rank is_none is_idle
fire-rank t s h = elim (Option-cases s.timer) [
  | inl e ↦
      let idle : is_none s.next_step ≡ true = h ∙ ap is_idle e in
      rw e (idle, omega (arith, is_none-rank s.next_step idle))
  | inr (sec, e) ↦ rw e (work-rank t.now t.radio t.conns (record s { timer = none }) refl)
]

-- From a state in which a step waits exactly when the delayable work is scheduled, any signal leads
-- to such a state: the ladder neither stalls with a step left nor runs with none.
pub handle-IsArmed :
    (on_active_down : Bool) (now : ℕ) (r : Radio) (g : Signal) (s : Watch)
    → IsArmed s
    → IsArmed (handle on_active_down now r g s)
unfolding handle profile_changed connected security_changed reconnect_watch_init
handle-IsArmed on now r (on_timer cs) s h =
    (fire-rank (record { now = now; radio = r; conns = cs }) s h).0
handle-IsArmed on now r on_arm_work s h = arm_work-IsArmed now r on s h
handle-IsArmed on now r on_storm s h = arm_light-IsArmed now r s h
handle-IsArmed on now r on_profile s h =
    ground (arith, arm_full-IsArmed now r (record s { watch_profile_index = r.active }))
handle-IsArmed on now r (on_connected err) s h = ground (arith, reset-IsArmed now r s)
handle-IsArmed on now r (on_security level) s h = ground (arith, reset-IsArmed now r s)
handle-IsArmed on now r on_commit s h = h

pub rank_bound : (step : Step) → rank step ≤ 3
unfolding rank
rank_bound step = ground arith

pub at_rest :
    (s : Watch) → IsArmed s → rank s.next_step ≡ 0 → (s.next_step ≡ step_none) × (s.timer ≡ none)
unfolding is_none is_idle rank
at_rest s h k = ground arith
