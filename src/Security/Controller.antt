-- ===== src/Security/Controller.antt =====
-- src/security_controller_timing.c: the controller. Zephyr's opcodes and the lengths of their packets
-- are the parameter `Opcodes`.
use totem_zmk_config.Prelude.{
  ℕ, Bool, false, ◌||◌, not, List, [], ◌∷◌, ◌++◌, ltb, ◌==◌, if◌then◌else◌,
}
use totem_zmk_config.Hevt.{Hevt}
use totem_zmk_config.Handoff.{capture}
use totem_zmk_config.Security.{Ref, Action, captured, real, cp_rx, ltk_req_reply, ltk_req_neq_reply}

pub record LlConn : Type 0 where
  pub is_peripheral : Bool
  pub handle : ℕ

unfoldable pub exchange_capture : ℕ → LlConn → ℕ → ℕ → ℕ → List Action
exchange_capture now c stage code extra =
    if c.is_peripheral
    then captured (capture now Hevt.security_exchange c.handle stage code extra) ∷ []
    else []

-- The opcode of each packet, and its length.
pub record Opcodes : Type 0 where
  pub enc_req : ℕ × ℕ
  pub enc_rsp : ℕ × ℕ
  pub start_enc_req : ℕ × ℕ
  pub start_enc_rsp : ℕ × ℕ

pub record Pdu : Type 0 where
  pub is_ctrl : Bool  -- ll_id is PDU_DATA_LLID_CTRL
  pub len : ℕ
  pub opcode : ℕ

module _ (ops : Opcodes) where
  pub encryption_pdu : Pdu → Bool
  encryption_pdu p =
      if not p.is_ctrl || ltb p.len 1
      then false
      else if p.opcode == ops.enc_req.0
      then p.len == ops.enc_req.1
      else if p.opcode == ops.enc_rsp.0
      then p.len == ops.enc_rsp.1
      else if p.opcode == ops.start_enc_req.0
      then p.len == ops.start_enc_req.1
      else if p.opcode == ops.start_enc_rsp.0
      then p.len == ops.start_enc_rsp.1
      else false

  pub totem_security_tx_queued : ℕ → LlConn → Pdu → List Action
  totem_security_tx_queued now c p =
      if encryption_pdu p then exchange_capture now c 3 p.opcode 0 else []

  -- __wrap_ull_cp_rx
  unfoldable pub ull_cp_rx : Ref → Ref → Ref → ℕ → LlConn → Pdu → List Action
  ull_cp_rx conn link rx now c p =
      (if encryption_pdu p then exchange_capture now c 2 p.opcode 0 else [])
      ++ real (cp_rx conn link rx) ∷ []

-- __wrap_ull_cp_ltk_req_reply; `result` is what the original returns at `later`, and is returned.
unfoldable pub ull_cp_ltk_req_reply : Ref → Ref → ℕ → ℕ → LlConn → ℕ → List Action × ℕ
ull_cp_ltk_req_reply conn ltk now later c result = (
  exchange_capture now c 4 0 1
      ++ (real (ltk_req_reply conn ltk) ∷ exchange_capture later c 5 result 1),
  result,
)

-- __wrap_ull_cp_ltk_req_neq_reply
unfoldable pub ull_cp_ltk_req_neq_reply : Ref → ℕ → ℕ → LlConn → ℕ → List Action × ℕ
ull_cp_ltk_req_neq_reply conn now later c result = (
  exchange_capture now c 4 0 0
      ++ (real (ltk_req_neq_reply conn) ∷ exchange_capture later c 5 result 0),
  result,
)
