-- ===== src/Watchdog.antt =====
-- src/totem_watchdog.c: why the last boot ended, and a watchdog with three channels that say which
-- context has stopped. `Channels` holds the channel numbers. Zephyr's task watchdog, the reset cause
-- and its masks are arguments; the calls of other code are returned in order. A function that
-- Zephyr calls again and again is one round of it.
pub mod Cause
pub mod Hang
pub mod Profiles
mod Tests
use totem_zmk_config.Prelude.{
  ℕ, ◌+◌, ◌-◌, ◌/◌, ◌%◌, ◌^◌, Bool, true, false, ◌&&◌, ◌||◌, not, List, [], ◌∷◌, ◌++◌, ◌==◌,
  if◌then◌else◌, ℤ, pos, negsuc, minus_one, is_neg, is_nonzero, int_eq, as_int8, Option, none, some,
  codes,
}
use Prim.Native.Nat.{bit_and}
use totem_zmk_config.Hevt.{Hevt}
use totem_zmk_config.Event.{Event, event}
use totem_zmk_config.Fault.{Body, Fault, Thread, totem_fault_note_task_wdt}

-- TOTEM_RR_*
abbrev pub rr_pin : ℕ
rr_pin = 0x01

abbrev pub rr_software : ℕ
rr_software = 0x02

abbrev pub rr_watchdog : ℕ
rr_watchdog = 0x04

abbrev pub rr_brownout : ℕ
rr_brownout = 0x08

abbrev pub rr_por : ℕ
rr_por = 0x10

abbrev pub rr_debug : ℕ
rr_debug = 0x20

abbrev pub rr_low_power : ℕ
rr_low_power = 0x40

abbrev pub rr_other : ℕ
rr_other = 0x80

-- Zephyr's RESET_*.
pub record Masks : Type 0 where
  pub pin : ℕ
  pub software : ℕ
  pub watchdog : ℕ
  pub brownout : ℕ
  pub por : ℕ
  pub debug : ℕ
  pub low_power_wake : ℕ

-- `cause & mask`, as a condition
pub has_bits : ℕ → ℕ → Bool
has_bits cause mask = not (bit_and cause mask == 0)

-- `out |= flag`, for a flag whose bit is clear in `out`: each flag is set once.
pub or_flag : Bool → ℕ → ℕ → ℕ
or_flag b flag out = if b then out + flag else out

-- `out` before its last condition.
pub known_flags : Masks → ℕ → ℕ
known_flags m cause =
    let out1 = or_flag (has_bits cause m.pin) rr_pin 0 in
    let out2 = or_flag (has_bits cause m.software) rr_software out1 in
    let out3 = or_flag (has_bits cause m.watchdog) rr_watchdog out2 in
    let out4 = or_flag (has_bits cause m.brownout) rr_brownout out3 in
    let out5 = or_flag (has_bits cause m.por) rr_por out4 in
    let out6 = or_flag (has_bits cause m.debug) rr_debug out5 in
    or_flag (has_bits cause m.low_power_wake) rr_low_power out6

pub compress_reset_cause : Masks → ℕ → ℕ
compress_reset_cause m cause =
    let out = known_flags m cause in or_flag (not (cause == 0) && out == 0) rr_other out

pub data Action : Type 0 where
  reset_result : ℤ → Action  -- totem_boot_diagnostics_reset_result
  log : Event → Action
  clear_reset_cause : Action
  report_fault : Action  -- totem_fault_report_and_clear
  schedule_profile_dump : ℕ → Action
  start_feeder : Action
  schedule_workq : ℕ → Action
  start_timer : ℕ → ℕ → Action
  feed : ℤ → Action
  sleep : ℕ → Action

-- `(uint32_t)z`
pub as_uint32 : ℤ → ℕ
as_uint32 (pos n) = n % 2 ^ 32
as_uint32 (negsuc n) = 2 ^ 32 - 1 - n % 2 ^ 32

-- The row that keeps the result of reading the cause.
pub result_row : ℕ → ℤ → Event
result_row now err =
    let result = as_uint32 err in
    event now Hevt.boot_read_result (as_int8 result) (as_int8 (result / 2 ^ 8)) 0
      (result / 2 ^ 16 % 256) (result / 2 ^ 24 % 256)

-- `module_owns` is CONFIG_ZMK_STUDIO_LOG_RESET_REASON. The result is `totem_reset_flags`.
pub totem_capture_reset_reason : Masks → Bool → ℕ → ℤ → ℕ → ℕ → ℕ × List Action
totem_capture_reset_reason m module_owns now err cause flags =
    let flags' = compress_reset_cause m cause in
    if is_nonzero err then (flags, reset_result err ∷ log (result_row now err) ∷ []) else (
      flags',
      reset_result err
          ∷ log (result_row now err)
          ∷ log (event now Hevt.boot minus_one minus_one flags' 0 0)
          ∷ (if module_owns then [] else clear_reset_cause ∷ []),
    )

-- CONFIG_TOTEM_WATCHDOG_TIMEOUT_MS and CONFIG_TOTEM_BOOT_PROFILE_DUMP_DELAY_MS, at their defaults
abbrev pub wdt_timeout_ms : ℕ
wdt_timeout_ms = 10000

abbrev pub profile_dump_delay_ms : ℕ
profile_dump_delay_ms = 4000

abbrev pub wdt_feed_interval_ms : ℕ
wdt_feed_interval_ms = wdt_timeout_ms / 3

pub record Channels : Type 0 where
  pub chan_sched : ℤ
  pub chan_workq : ℤ
  pub chan_timer : ℤ

abbrev pub no_channels : Channels
no_channels = record { chan_sched = minus_one; chan_workq = minus_one; chan_timer = minus_one }

-- The contexts that feed.
pub data Context : Type 0 where
  sched sysworkq timer : Context

-- Their names, and that of no context.
abbrev pub name_of : Context → List ℕ
name_of sched = codes "sched"
name_of sysworkq = codes "sysworkq"
name_of timer = codes "timer"

abbrev pub unknown_name : List ℕ
unknown_name = codes "unknown"

pub chan_label : ℤ → Channels → List ℕ
chan_label channel_id s =
    if int_eq channel_id s.chan_sched
    then name_of sched
    else if int_eq channel_id s.chan_workq
    then name_of sysworkq
    else if int_eq channel_id s.chan_timer
    then name_of timer
    else unknown_name

-- Up to the reboot.
pub totem_task_wdt_cb : (Body → ℕ) → ℕ → Thread → ℤ → Channels → Fault → Fault
totem_task_wdt_cb fault_crc now thread channel_id s fault =
    totem_fault_note_task_wdt fault_crc now thread channel_id (some (chan_label channel_id s)) fault

-- One round of the loop, and the two handlers.
pub wdt_feeder : Channels → List Action
wdt_feeder s = feed s.chan_sched ∷ sleep wdt_feed_interval_ms ∷ []

pub wdt_workq_handler : Channels → List Action
wdt_workq_handler s = feed s.chan_workq ∷ schedule_workq wdt_feed_interval_ms ∷ []

pub wdt_timer_handler : Channels → List Action
wdt_timer_handler s = feed s.chan_timer ∷ []

-- What Zephyr answers: whether there is a device and it is ready, the result of task_wdt_init, and
-- those of task_wdt_add.
pub record Hardware : Type 0 where
  pub present : Bool
  pub ready : Bool
  pub init_err : ℤ
  pub added : Channels

pub any_negative : Channels → Bool
any_negative s = is_neg s.chan_sched || is_neg s.chan_workq || is_neg s.chan_timer

-- The part after the reports, with CONFIG_TOTEM_WATCHDOG.
pub arm : Hardware → Channels → Channels × List Action
arm hw s =
    if not hw.present
    then (s, [])
    else if not hw.ready
    then (s, [])
    else if is_nonzero hw.init_err
    then (s, [])
    else if any_negative hw.added
    then (hw.added, [])
    else (
      hw.added,
      start_feeder
          ∷ schedule_workq wdt_feed_interval_ms
          ∷ start_timer wdt_feed_interval_ms wdt_feed_interval_ms
          ∷ [],
    )

pub totem_watchdog_init :
    Masks → Bool → ℕ → ℤ → ℕ → Hardware → Channels → ℕ → Channels × ℕ × List Action
totem_watchdog_init m module_owns now err cause hw s flags =
    let (flags', captured) = totem_capture_reset_reason m module_owns now err cause flags in
    let (s', armed) = arm hw s in
    (s', flags', captured ++ (report_fault ∷ schedule_profile_dump profile_dump_delay_ms ∷ armed))
