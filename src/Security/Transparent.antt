-- ===== src/Security/Transparent.antt =====
-- The wrappers only watch: they call the wrapped function once.
use totem_zmk_config.Prelude.{ℕ, Bool, List, [], ◌∷◌, ℤ, Option, some}
use totem_zmk_config.Security.{Ref, Real, Action, captured, real}
use totem_zmk_config.Security.Host.{
  Hci, Buf, Packet, HostConn, net_buf_slist_put, net_buf_slist_get, l2cap_send_pdu,
  conn_security_changed, l2cap_security_changed,
}
use totem_zmk_config.Security.Controller.{
  LlConn, Opcodes, Pdu, ull_cp_rx, ull_cp_ltk_req_reply, ull_cp_ltk_req_neq_reply,
}

-- The calls of the wrapped functions.
abbrev pub reals : List Action → List Real
reals [] = []
reals (captured r ∷ acts) = reals acts
reals (real r ∷ acts) = r ∷ reals acts

-- A call of a wrapped function: its arguments, then what the wrapper sees.
pub data Call : Type 0 where
  put : Ref → Ref → ℕ → Bool → Option Buf → Call
  get : Ref → ℕ → Bool → Option Buf → Call
  send : Ref → Ref → Ref → Ref → ℕ → ℕ → Packet → ℤ → Call
  secured : Ref → ℕ → ℕ → ℕ → ℕ → HostConn → HostConn → Call
  l2cap_secured : Ref → ℕ → ℕ → HostConn → Call
  receive : Ref → Ref → Ref → ℕ → LlConn → Pdu → Call
  reply : Ref → Ref → ℕ → ℕ → LlConn → ℕ → Call
  neg_reply : Ref → ℕ → ℕ → LlConn → ℕ → Call

-- The original, with the arguments of the call.
abbrev pub real_of : Call → Real
real_of (put list buf now rx seen) = Real.slist_put list buf
real_of (get list now rx taken) = Real.slist_get list
real_of (send chan buf cb user_data now later p err) = Real.send_pdu chan buf cb user_data
real_of (secured conn hci_err err now later c c') = Real.security_changed conn hci_err err
real_of (l2cap_secured conn status later c) = Real.l2cap_security_changed conn status
real_of (receive conn link rx now c p) = Real.cp_rx conn link rx
real_of (reply conn ltk now later c result) = Real.ltk_req_reply conn ltk
real_of (neg_reply conn now later c result) = Real.ltk_req_neq_reply conn

module _ (hci : Hci) (ops : Opcodes) where
  unfoldable pub wrap : Call → Option (List Action)
  wrap (put list buf now rx seen) = net_buf_slist_put hci list buf now rx seen
  wrap (get list now rx taken) = net_buf_slist_get hci list now rx taken
  wrap (send chan buf cb user_data now later p err) =
      some (l2cap_send_pdu chan buf cb user_data now later p err).0
  wrap (secured conn hci_err err now later c c') =
      some (conn_security_changed conn hci_err err now later c c')
  wrap (l2cap_secured conn status later c) = some (l2cap_security_changed conn status later c)
  wrap (receive conn link rx now c p) = some (ull_cp_rx ops conn link rx now c p)
  wrap (reply conn ltk now later c result) =
      some (ull_cp_ltk_req_reply conn ltk now later c result).0
  wrap (neg_reply conn now later c result) =
      some (ull_cp_ltk_req_neq_reply conn now later c result).0
