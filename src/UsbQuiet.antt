-- ===== src/UsbQuiet.antt =====
-- src/usb_host_quiet.c: on a cable the links to computers are dropped, and the other half's is kept.
-- `zmk_usb_is_powered` and the connections are arguments. The work's delay is its state.
pub mod Drops
use totem_zmk_config.Prelude.{
  ℕ, Bool, true, false, ◌&&◌, ◌||◌, not, List, [], ◌∷◌, ◌++◌, if◌then◌else◌, minus_one, Option,
  some, none,
}
use totem_zmk_config.Hevt.{Hevt}
use totem_zmk_config.Event.{Event, event}
use totem_zmk_config.Host.{Conn, err_remote_user_term}

pub data Action : Type 0 where
  disconnect : Conn → ℕ → Action  -- bt_conn_disconnect, with the reason
  log : Event → Action

unfoldable pub drop_host_conn : Conn → List Action
drop_host_conn c =
    if not c.info_ok
    then []
    else if not c.peripheral
    then []
    else disconnect c err_remote_user_term ∷ []

-- bt_conn_foreach
unfoldable pub drop_host_conns : List Conn → List Action
drop_host_conns [] = []
drop_host_conns (c ∷ cs) = drop_host_conn c ++ drop_host_conns cs

unfoldable pub usb_host_quiet_work_handler : ℕ → Bool → List Conn → List Action
usb_host_quiet_work_handler now powered cs =
    if not powered
    then log (event now Hevt.adv minus_one minus_one 1 0 0) ∷ []
    else drop_host_conns cs ++ log (event now Hevt.adv minus_one minus_one 0 0 1) ∷ []

-- k_work_reschedule, and k_work_schedule, which leaves work that is scheduled as it is
pub usb_host_quiet_listener : Option ℕ → Option ℕ
usb_host_quiet_listener work = some 50

pub usb_host_quiet_init : Option ℕ → Option ℕ
usb_host_quiet_init none = some 400
usb_host_quiet_init (some delay) = some delay
