-- ===== src/LazyHost.antt =====
-- src/lazy_inactive_host.c: computers that are not selected are asked for slow connection parameters
-- and the selected one for quick ones. The Bluetooth host's answers are in `Conn`; the delay of the
-- work, if it is scheduled, is the state.
pub mod Requests
use totem_zmk_config.Prelude.{
  ℕ, Bool, true, false, ◌||◌, not, List, [], ◌∷◌, ◌++◌, ltb, leb, ◌==◌, if◌then◌else◌, ℤ, is_neg,
  int_eq, Option, some,
}
use totem_zmk_config.Host.{Conn, security_l2}

-- BT_LE_CONN_PARAM
pub record Params : Type 0 where
  pub interval_min : ℕ
  pub interval_max : ℕ
  pub latency : ℕ
  pub timeout : ℕ

-- CONFIG_BT_PERIPHERAL_PREF_MIN_INT and its companion, from config/totem.conf
abbrev pub active_params : Params
active_params = record { interval_min = 12; interval_max = 24; latency = 0; timeout = 400 }

-- CONFIG_TOTEM_LAZY_HOST_*, at their defaults
abbrev pub lazy_params : Params
lazy_params = record { interval_min = 80; interval_max = 160; latency = 4; timeout = 500 }

-- A call of bt_conn_le_param_update.
pub record Request : Type 0 where
  pub conn : Conn
  pub params : Params

unfoldable pub apply_params : Conn → Bool → List Request
apply_params c snappy =
    if not c.info_ok || not c.peripheral
    then []
    else if not c.connected
    then []
    else if ltb c.security security_l2
    then []
    else record { conn = c; params = if snappy then active_params else lazy_params } ∷ []

unfoldable pub update_one_host : ℤ → Conn → List Request
update_one_host active c =
    if not c.info_ok || not c.peripheral
    then []
    else if not c.connected
    then []
    else if is_neg c.idx
    then []
    else apply_params c (int_eq c.idx active)

-- bt_conn_foreach
unfoldable pub lazy_host_refresh : ℤ → List Conn → List Request
lazy_host_refresh active [] = []
lazy_host_refresh active (c ∷ cs) = update_one_host active c ++ lazy_host_refresh active cs

pub lazy_host_work_handler : ℤ → List Conn → List Request
lazy_host_work_handler active = lazy_host_refresh active

pub lazy_host_schedule : Option ℕ → Option ℕ
lazy_host_schedule work = some 100

pub lazy_host_profile_changed : Option ℕ → Option ℕ
lazy_host_profile_changed work = lazy_host_schedule work

pub lazy_host_connected : ℕ → Option ℕ → Option ℕ
lazy_host_connected err work = if not (err == 0) then work else lazy_host_schedule work

pub lazy_host_security_changed : ℕ → Option ℕ → Option ℕ
lazy_host_security_changed level work =
    if leb security_l2 level then lazy_host_schedule work else work

pub lazy_host_identity_resolved : Option ℕ → Option ℕ
lazy_host_identity_resolved work = lazy_host_schedule work
