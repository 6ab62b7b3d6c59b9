-- ===== src/Security.antt =====
-- src/security_timing.c and src/security_controller_timing.c: when a link's encryption is asked for,
-- answered and switched on, in the host and in the controller. Each wrapper is one function, which
-- returns its calls in order; the rows go to the timing inbox.
pub mod Host
pub mod Controller
pub mod Bounds
pub mod Transparent
mod Tests
use totem_zmk_config.Prelude.{ℕ, List, [], ◌∷◌, ◌++◌, map}
use totem_zmk_config.Timing.{TimingRecord}

-- The value of a pointer. What a wrapper reads behind one is an argument of its own.
abbrev pub Ref : Type 0
Ref = ℕ

-- A call of a wrapped function, those of Handoff.Controller among them, with all its arguments.
pub data Real : Type 0 where
  send_pdu : Ref → Ref → Ref → Ref → Real
  slist_put : Ref → Ref → Real
  slist_get : Ref → Real
  security_changed : Ref → ℕ → ℕ → Real
  l2cap_security_changed : Ref → ℕ → Real
  cp_rx : Ref → Ref → Ref → Real
  ltk_req_reply : Ref → Ref → Real
  ltk_req_neq_reply : Ref → Real
  tx_enqueue : Ref → Ref → Real
  tx_ack : Ref → Ref → Ref → Real
  prt_elapse : Ref → ℕ → Ref → Real

pub data Action : Type 0 where
  captured : TimingRecord → Action  -- totem_diagnostic_timing_capture
  real : Real → Action

abbrev pub rows : List TimingRecord → List Action
rows rs = map captured rs
