-- ===== src/ExclusiveHost.antt =====
-- src/exclusive_host.c: computers other than the selected one are disconnected, within limits.
-- `Guard` holds the file's static variables. A function takes the uptime once and returns the new
-- state and what it does, in order; lines that are only printed are left out.
pub mod Thrash
pub mod Evict
pub mod Handlers
mod Tests
use totem_zmk_config.Prelude.{
  ℕ, zero, suc, ◌+◌, ◌-◌, ◌*◌, ◌%◌, Bool, true, false, ◌&&◌, ◌||◌, not, List, [], ◌∷◌, ◌++◌, length,
  get_or, set, ltb, leb, ◌==◌, if◌then◌else◌, replicate, ℤ, pos, minus_one, is_neg, is_nonzero,
  int_eq, int8, magnitude,
}
use totem_zmk_config.Config.{
  bg_evict_ignore_ms, bg_evict_cap, thrash_window_sec, bond_heal_threshold,
}
use totem_zmk_config.Hevt.{Hevt}
use totem_zmk_config.Event.{Event, event}
use totem_zmk_config.Host.{Conn, Radio, security_l2, err_auth_fail}

pub record Guard : Type 0 where
  pub bg_ignore_until : List ℕ  -- one for each profile
  pub thrash_cap_logged : Bool
  pub last_active_profile : ℤ
  pub thrash_ring : List ℕ
  pub thrash_ring_head : ℕ
  pub thrash_ring_count : ℕ
  pub class_a_fail_ts : List ℕ
  pub class_a_fail_count : ℕ
  pub last_skip_log_ms : ℕ
  pub last_ignore_log_ms : ℕ
  pub active_auth_fail_streak : ℕ

abbrev pub thrash_ring_size : ℕ
thrash_ring_size = 16

abbrev pub thrash_window_ms : ℕ
thrash_window_ms = thrash_window_sec * 1000

abbrev pub class_a_window_ms : ℕ
class_a_window_ms = 60000

abbrev pub class_a_fail_threshold : ℕ
class_a_fail_threshold = 3

-- The static initialisers, for `n` profiles.
abbrev pub initial : ℕ → Guard
initial n = record {
  bg_ignore_until = replicate n 0;
  thrash_cap_logged = false;
  last_active_profile = minus_one;
  thrash_ring = replicate thrash_ring_size 0;
  thrash_ring_head = 0;
  thrash_ring_count = 0;
  class_a_fail_ts = replicate class_a_fail_threshold 0;
  class_a_fail_count = 0;
  last_skip_log_ms = 0;
  last_ignore_log_ms = 0;
  active_auth_fail_streak = 0;
}

-- The calls that leave the module.
pub data Action : Type 0 where
  log : Event → Action  -- totem_host_event_log_record
  disconnect : ℤ → ℤ → Action  -- bt_conn_disconnect: the profile and the result
  submit_evict : Action
  schedule_retry : Action
  reschedule_fallback : Action
  submit_bond_clear : Action
  clear_bonds : Action

pub bg_clear_ignores : Guard → Guard
bg_clear_ignores s = record s {
  bg_ignore_until = replicate (length s.bg_ignore_until) 0;
  thrash_cap_logged = false;
}

-- `idx` as an index of `bg_ignore_until`; past the end where it is out of range.
abbrev pub slot_of : ℤ → Guard → ℕ
slot_of idx s = if is_neg idx then length s.bg_ignore_until else magnitude idx

pub bg_should_ignore : ℕ → ℤ → Guard → Bool
bg_should_ignore now idx s =
    if is_neg idx || leb (length s.bg_ignore_until) (magnitude idx)
    then false
    else if get_or s.bg_ignore_until (magnitude idx) 0 == 0
    then false
    else ltb now (get_or s.bg_ignore_until (magnitude idx) 0)

pub bg_note_evict : ℕ → ℤ → Guard → Guard
bg_note_evict now idx s =
    if not (is_neg idx) && ltb (magnitude idx) (length s.bg_ignore_until)
    then record s {
      bg_ignore_until = set s.bg_ignore_until (magnitude idx) (now + bg_evict_ignore_ms);
    }
    else s

-- The loop of `thrash_win_count`, for `k` more rounds: newest first, up to one outside the window.
pub count_back : List ℕ → ℕ → ℕ → ℕ → ℕ → ℕ
count_back ring head now i zero = 0
count_back ring head now i (suc k) =
    let rest = count_back ring head now (i + 1) k in
    if ltb thrash_window_ms
      (now - get_or ring ((head + thrash_ring_size - 1 - i) % thrash_ring_size) 0)
    then 0
    else suc rest

pub thrash_win_count : ℕ → Guard → ℕ
thrash_win_count now s = count_back s.thrash_ring s.thrash_ring_head now 0 s.thrash_ring_count

-- The ring part of `thrash_note_bg_evict`.
pub thrash_push : ℕ → Guard → Guard
thrash_push now s = record s {
  thrash_ring = set s.thrash_ring s.thrash_ring_head now;
  thrash_ring_head = (s.thrash_ring_head + 1) % thrash_ring_size;
  thrash_ring_count =
      if ltb s.thrash_ring_count thrash_ring_size
      then s.thrash_ring_count + 1
      else s.thrash_ring_count;
}

pub thrash_note_bg_evict : ℕ → Radio → Guard → Guard × List Action
thrash_note_bg_evict now r s =
    let s' = thrash_push now s in
    let win = thrash_win_count now s' % 256 in
    (s', log (event now Hevt.thrash_win minus_one (int8 r.active) win win 0) ∷ [])

pub thrash_clear : Guard → Guard
thrash_clear s = record s { thrash_ring_head = 0; thrash_ring_count = 0 }

-- The loop that drops stale failures, for `k` more rounds: the array and `kept`.
pub keep_recent : ℕ → List ℕ → ℕ → ℕ → ℕ → List ℕ × ℕ
keep_recent now ts kept i zero = (ts, kept)
keep_recent now ts kept i (suc k) =
    let stays = leb (now - get_or ts i 0) class_a_window_ms in
    keep_recent now (if stays then set ts kept (get_or ts i 0) else ts)
      (if stays then kept + 1 else kept) (i + 1) k

-- The shift by one place, with `now` at the end.
pub shift_in : ℕ → List ℕ → List ℕ
shift_in now ts =
    set (set (set ts 0 (get_or ts 1 0)) 1 (get_or ts 2 0)) (class_a_fail_threshold - 1) now

-- What follows the loop: `kept` failures stand at the front of `ts`.
pub class_a_store : ℕ → List ℕ → ℕ → Guard → Guard
class_a_store now ts kept s =
    if ltb kept class_a_fail_threshold
    then record s { class_a_fail_ts = set ts kept now; class_a_fail_count = kept + 1 }
    else record s { class_a_fail_ts = shift_in now ts; class_a_fail_count = kept }

pub class_a_add : ℕ → Guard → Guard
class_a_add now s =
    let (ts, kept) = keep_recent now s.class_a_fail_ts 0 0 s.class_a_fail_count in
    class_a_store now ts kept s

pub class_a_note_auth_event : ℕ → Radio → Bool → Guard → Guard × List Action
class_a_note_auth_event now r false s = (record s { class_a_fail_count = 0 }, [])
class_a_note_auth_event now r true s =
    let s' = class_a_add now s in
    let win = thrash_win_count now s' in
    (
      s',
      if leb class_a_fail_threshold s'.class_a_fail_count && ltb win 2
          then log (
              event now Hevt.class_a_suspect (int8 r.active) (int8 r.active) s'.class_a_fail_count
                (win % 256) 0)
            ∷ []
          else [],
    )
