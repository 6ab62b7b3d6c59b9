-- ===== src/Studio/Usb.antt =====
-- src/totem_studio_usb.c: the work that selects USB, and retries.
pub mod Retries
use totem_zmk_config.Prelude.{
  ℕ, ◌+◌, ◌%◌, Bool, true, false, List, [], ◌∷◌, ltb, if◌then◌else◌, minus_one, Option, none, some,
}
use totem_zmk_config.Hevt.{Hevt}
use totem_zmk_config.Event.{Event, event}

-- `tries`, and the delay in ms of `totem_studio_usb_work` if it is scheduled.
pub record Usb : Type 0 where
  pub tries : ℕ
  pub work : Option ℕ

abbrev pub max_tries : ℕ
max_tries = 20

-- What is asked when the work runs: `zmk_usb_is_powered`, and whether USB is the selected endpoint
-- after the preference is set.
pub record Answer : Type 0 where
  pub powered : Bool
  pub selected : Bool

pub data Action : Type 0 where
  adv_wake uart_rearm prefer_usb : Action

-- The work is no longer scheduled when it runs, and schedules itself again.
unfoldable pub totem_studio_prefer_usb : Answer → Usb → Usb × List Action
totem_studio_prefer_usb a s =
    if a.powered
    then (
      if a.selected
          then record s { tries = 0; work = none }
          else if ltb s.tries max_tries
          then record s { tries = s.tries + 1; work = some 250 }
          else record s { work = none },
      uart_rearm ∷ prefer_usb ∷ [],
    )
    else (record s { tries = 0; work = none }, adv_wake ∷ [])

unfoldable pub totem_studio_usb_kick : Usb → Usb
totem_studio_usb_kick s = record s { work = some 200 }

-- The events that the listener subscribes to: the cable's state, or the new endpoint's transport.
pub data Change : Type 0 where
  usb : ℕ → Change
  endpoint : ℕ → Change

-- `transport` is that of the selected endpoint.
unfoldable pub totem_studio_usb_listener : ℕ → ℕ → Change → Usb → Usb × Event
unfolding totem_studio_usb_kick
totem_studio_usb_listener now transport (usb state) s = (
  totem_studio_usb_kick s,
  event now Hevt.usb minus_one minus_one (state % 256) 0 (transport % 256),
)
totem_studio_usb_listener now transport (endpoint new) s =
    (totem_studio_usb_kick s, event now Hevt.usb minus_one minus_one 255 0 (new % 256))

-- `k_work_schedule` leaves work that is scheduled as it is; at boot it is not.
pub totem_studio_usb_init : Usb
totem_studio_usb_init = record { tries = 0; work = some 1500 }
