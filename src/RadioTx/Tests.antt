-- ===== src/RadioTx/Tests.antt =====
-- The theorem on verdicts at a concrete run.
use totem_zmk_config.Prelude.{◌≡◌, true, false, List, [], ◌∷◌, some}
use totem_zmk_config.RadioTx.{
  initial, Op, set_conn_isr, set_tx_packet, reset_status, conn_isr_rx, conn_isr_tx, Context, Packet,
  run,
}
use totem_zmk_config.RadioTx.Settled.{settle, run-settle}

abbrev link : Context
link = record { address = 64; handle = 1; peripheral = true; enc_tx = false }

abbrev terminate : Packet
terminate = record { address = 96; is_control = true; len = 2; is_terminate = true }

abbrev calls : List Op
calls =
    set_conn_isr false true conn_isr_rx link
    ∷ set_tx_packet false terminate
    ∷ set_conn_isr false true conn_isr_tx link
    ∷ reset_status true
    ∷ []

run-settle_example : settle (some false) (run calls initial).1 ≡ some (run calls initial).0.pending
run-settle_example = run-settle calls initial
