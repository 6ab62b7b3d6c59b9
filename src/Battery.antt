-- ===== src/Battery.antt =====
-- src/totem_battery_log.c: battery levels on the console, at most once a second for events, and a
-- power sample in the journal. `Battery` holds the static variables. The text that `format_levels`
-- writes is an argument, as a list of bytes; a printed line is its parts.
pub mod Spaced
pub mod Heartbeat
mod Tests
use totem_zmk_config.Prelude.{
  ℕ, ◌+◌, ◌-◌, ◌*◌, ◌/◌, ◌%◌, ◌^◌, Bool, true, false, ◌&&◌, ◌||◌, not, List, [], ◌∷◌, ltb, ◌==◌,
  if◌then◌else◌, ℤ, pos, minus_one, is_neg, int8, min, Option, none, some, same_text,
}
use totem_zmk_config.Hevt.{Hevt}
use totem_zmk_config.Event.{Event, event}

abbrev pub batt_event_min_interval_ms : ℕ
batt_event_min_interval_ms = 1000

pub record Battery : Type 0 where
  pub peripheral_soc : ℤ
  pub last_event_print_ms : ℕ
  pub last_printed : List ℕ

abbrev pub initial : Battery
initial = record { peripheral_soc = minus_one; last_event_print_ms = 0; last_printed = [] }

unfoldable pub batt_event_should_print : ℕ → List ℕ → Battery → Battery × Bool
batt_event_should_print now levels s =
    if same_text levels s.last_printed
    then (s, false)
    else if not (s.last_event_print_ms == 0)
        && ltb (now - s.last_event_print_ms) batt_event_min_interval_ms
    then (s, false)
    else (record s { last_event_print_ms = now; last_printed = levels }, true)

-- What the sensor answers: nothing, or whole volts and millionths, which are not negative.
pub battery_mv : ℕ → Option (ℕ × ℕ) → ℕ
battery_mv mv none = mv
battery_mv mv (some (val1, val2)) = if mv == 0 then (val1 * 1000 + val2 / 1000) % 65536 else mv

pub data Why : Type 0 where
  periph local tick : Why

pub record Line : Type 0 where
  pub why : Why
  pub up_s : ℕ
  pub levels : List ℕ
  pub mv : Option ℕ
  pub no_report_yet : Bool

pub totem_batt_print : Why → Bool → ℕ → ℕ → List ℕ → Battery → Line
totem_batt_print why with_mv now mv levels s = record {
  why = why;
  up_s = (now % 2 ^ 32) / 1000;
  levels = levels;
  mv = if with_mv && ltb 0 mv then some mv else none;
  no_report_yet = is_neg s.peripheral_soc;
}

-- The events that the listener subscribes to.
pub data Change : Type 0 where
  peripheral : ℕ → Change
  charging : Change
  own : Change

abbrev pub note_soc : Change → Battery → Battery
note_soc (peripheral soc) s = record s { peripheral_soc = pos soc }
note_soc charging s = s
note_soc own s = s

abbrev pub why_of : Change → Why
why_of (peripheral soc) = periph
why_of charging = periph
why_of own = local

-- The levels are as they are after the new level is noted; the clock reads `now` throughout.
unfoldable pub totem_batt_listener : ℕ → ℕ → List ℕ → Change → Battery → Battery × List Line
unfolding batt_event_should_print
totem_batt_listener now mv levels e s =
    let (s', prints) = batt_event_should_print now levels (note_soc e s) in
    (s', if prints then totem_batt_print (why_of e) false now mv levels s' ∷ [] else [])

-- CONFIG_TOTEM_BATTERY_LOG_INTERVAL_SEC, from config/totem_left.conf, and
-- CONFIG_TOTEM_DIAG_HEARTBEAT_MIN, at its default
abbrev pub battery_log_interval_sec : ℕ
battery_log_interval_sec = 300

abbrev pub diag_heartbeat_min : ℕ
diag_heartbeat_min = 30

-- The line, and the seconds after which the work runs again.
pub totem_batt_tick_handler : ℕ → ℕ → List ℕ → Battery → Line × ℕ
totem_batt_tick_handler now mv levels s =
    (totem_batt_print tick true now mv levels s, battery_log_interval_sec)

-- `word`: bit 15, which is clear after `MIN`, is set on a cable.
pub heartbeat_word : ℕ → Bool → ℕ
heartbeat_word mv usb = let word = min mv 0x7FFF in if usb then word + 0x8000 else word

-- The row, and the seconds after which the work runs again.
pub totem_batt_heartbeat_handler : ℕ → ℤ → ℕ → ℕ → Bool → Battery → Event × ℕ
totem_batt_heartbeat_handler now active soc mv usb s =
    let word = heartbeat_word mv usb in
    (
      event now Hevt.heartbeat (int8 active) (int8 s.peripheral_soc) (soc % 256) (word % 256)
          (word / 256 % 256),
      diag_heartbeat_min * 60,
    )

-- The seconds after which the tick and the heartbeat first run.
abbrev pub totem_battery_log_init : ℕ × ℕ
totem_battery_log_init = (10, 60)
