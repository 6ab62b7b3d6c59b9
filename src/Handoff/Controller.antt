-- ===== src/Handoff/Controller.antt =====
-- src/handoff_diagnostics.c, the wrappers of the controller's termination procedure. Each returns its
-- calls in order.
use totem_zmk_config.Prelude.{
  ℕ, Bool, ◌&&◌, ◌||◌, not, List, [], ◌∷◌, ◌++◌, length, ltb, leb, ◌==◌, if◌then◌else◌, ℤ, int_eq,
}
use totem_zmk_config.Hevt.{Hevt}
use totem_zmk_config.Handoff.{RadioStats, radio_at, capture}
use totem_zmk_config.Security.{Ref, Action, captured, real, tx_enqueue, tx_ack, prt_elapse}
use totem_zmk_config.Security.Controller.{LlConn, Opcodes, Pdu, totem_security_tx_queued}

-- Zephyr's PDU_DATA_LLCTRL_TYPE_TERMINATE_IND and -ETIMEDOUT.
pub record Codes : Type 0 where
  pub terminate_ind : ℕ
  pub timed_out : ℤ

module _ (codes : Codes) where
  pub termination_observed : ℕ → List RadioStats → LlConn → Pdu → ℕ → List Action
  termination_observed now radios c p stage =
      if leb (length radios) c.handle || not p.is_ctrl || not (p.opcode == codes.terminate_ind)
      then []
      else if (radio_at radios c.handle).armed
      then captured (capture now Hevt.handoff_term c.handle stage 0 0) ∷ []
      else []

  -- __wrap_llcp_tx_enqueue
  pub llcp_tx_enqueue : Opcodes → Ref → Ref → ℕ → List RadioStats → LlConn → Pdu → List Action
  llcp_tx_enqueue ops conn tx now radios c p =
      termination_observed now radios c p 2
      ++ (totem_security_tx_queued ops now c p ++ real (tx_enqueue conn tx) ∷ [])

  -- __wrap_llcp_lp_comm_tx_ack
  pub llcp_lp_comm_tx_ack : Ref → Ref → Ref → ℕ → List RadioStats → LlConn → Pdu → List Action
  llcp_lp_comm_tx_ack conn ctx tx now radios c p =
      termination_observed now radios c p 3 ++ real (tx_ack conn ctx tx) ∷ []

  -- __wrap_ull_cp_prt_elapse: `local_expire` is read before the original runs; `result`, the error
  -- code and whether the procedure is a termination are what it leaves. `result` is returned.
  pub ull_cp_prt_elapse :
      Ref → ℕ → Ref → ℕ → List RadioStats → LlConn → ℕ → ℤ → Bool → ℕ → List Action × ℤ
  ull_cp_prt_elapse conn elapsed_event error_at now radios c local_expire result terminates
        error_code =
      (
        real (prt_elapse conn elapsed_event error_at)
            ∷ (if not (int_eq result codes.timed_out)
                  || local_expire == 0
                  || ltb elapsed_event local_expire
                  || not c.is_peripheral
                  || leb (length radios) c.handle
                then []
                else if terminates && (radio_at radios c.handle).armed
                then captured (capture now Hevt.handoff_term c.handle 4 0 error_code) ∷ []
                else []),
        result,
      )
