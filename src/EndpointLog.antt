-- ===== src/EndpointLog.antt =====
-- src/totem_endpoint_log.c and src/conn_params_log.c: lines on the console when the endpoint or a
-- link's parameters change. ZMK's endpoint instances are the parameter `Endpoint`, with the
-- comparison `eq`; their text and the lines' are left to the reader of a line's parts.
pub mod Changes
use totem_zmk_config.Prelude.{
  ℕ, ◌+◌, Bool, true, false, ◌&&◌, ◌||◌, not, List, [], ◌∷◌, ◌==◌, if◌then◌else◌, Option, none,
  some,
}

-- The words that a line starts with.
pub data Why : Type 0 where
  boot changed connected updated : Why

module _ {Endpoint : Type 0} (eq : Endpoint → Endpoint → Bool) where
  -- `have_last` is whether there is a last pair, `last_selected` and `last_preferred`.
  abbrev pub Last : Type 0
  Last = Option (Endpoint × Endpoint)

  pub record Line : Type 0 where
    pub why : Why
    pub selected : Endpoint
    pub preferred : Endpoint
    pub fallback : Bool

  pub same_pair : Endpoint × Endpoint → Last → Bool
  same_pair (selected, preferred) none = false
  same_pair (selected, preferred) (some (last_selected, last_preferred)) =
      eq selected last_selected && eq preferred last_preferred

  -- `now` is what ZMK answers: the selected and the preferred endpoint.
  unfoldable pub totem_print_endpoints :
      Why → Bool → Endpoint × Endpoint → Last → Last × Option Line
  totem_print_endpoints why force now last =
      if not force && same_pair now last then (last, none) else (
        some now,
        some (record {
          why = why;
          selected = now.0;
          preferred = now.1;
          fallback = not (eq now.0 now.1);
        }),
      )

  -- The poll runs again after 1000 ms.
  pub totem_endpoint_poll_handler : Endpoint × Endpoint → Last → Last × Option Line × ℕ
  totem_endpoint_poll_handler now last =
      let (last', line) = totem_print_endpoints changed false now last in (last', line, 1000)

  -- The flag is whether the event is a change of the endpoint.
  pub totem_endpoint_changed_listener : Bool → Endpoint × Endpoint → Last → Last × Option Line
  totem_endpoint_changed_listener is_change now last =
      if not is_change then (last, none) else totem_print_endpoints changed false now last

  pub totem_endpoint_boot_work_handler : Endpoint × Endpoint → Last → Last × Option Line
  totem_endpoint_boot_work_handler now last = totem_print_endpoints boot true now last

-- The delays of the boot report and of the first poll, with
-- CONFIG_TOTEM_BOOT_PROFILE_DUMP_DELAY_MS at its value in config/totem_left.conf.
abbrev pub endpoint_delays : ℕ × ℕ
endpoint_delays = (4000, 4000 + 1000)

-- A connection as `print_params` reads it, and the line.
pub record ParamsConn : Type 0 where
  pub info_ok : Bool
  pub is_le : Bool
  pub role : ℕ
  pub interval : ℕ
  pub latency : ℕ
  pub timeout : ℕ

pub record ParamsLine : Type 0 where
  pub why : Why
  pub role : ℕ
  pub interval : ℕ
  pub latency : ℕ
  pub timeout : ℕ

pub print_params : ParamsConn → Why → Option ParamsLine
print_params c why =
    if not c.info_ok || not c.is_le
    then none
    else some (record {
      why = why;
      role = c.role;
      interval = c.interval;
      latency = c.latency;
      timeout = c.timeout;
    })

pub conn_params_connected : ParamsConn → ℕ → Option ParamsLine
conn_params_connected c err = if err == 0 then print_params c connected else none

pub conn_params_updated : ParamsConn → Option ParamsLine
conn_params_updated c = print_params c updated
