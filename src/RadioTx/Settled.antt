-- ===== src/RadioTx/Settled.antt =====
-- Each prepared packet gets exactly one verdict.
use totem_zmk_config.Prelude.{
  ℕ, ◌≡◌, refl, ap, ◌∙◌, arith, Bool, true, false, List, [], ◌∷◌, ◌++◌, Option, none, some,
}
use totem_zmk_config.RadioTx.{
  TxRadio, Call, tx_setup, tx_result, Packet, Isr, Context, finish_pending, isr_set_conn,
  isr_set_other, radio_ccm_tx_pkt_set, radio_pkt_tx_set, radio_status_reset, Op, set_conn_isr,
  set_other_isr, set_ccm_packet, set_tx_packet, reset_status, step, run,
}

-- An observer of the calls, who knows whether a packet waits for its verdict: a setup is allowed
-- when none waits, a verdict when one does.
abbrev pub settle_one : Bool → Call → Option Bool
settle_one false (tx_setup h) = some true
settle_one true (tx_result h end) = some false
settle_one _ _ = none

unfoldable pub settle : Option Bool → List Call → Option Bool
settle none acts = none
settle (some waits) [] = some waits
settle (some waits) (a ∷ acts) = settle (settle_one waits a) acts

settle-none : (acts : List Call) → settle none acts ≡ none
unfolding settle
settle-none acts = refl

pub settle-append :
    (o : Option Bool) (acts bs : List Call) → settle o (acts ++ bs) ≡ settle (settle o acts) bs
unfolding settle
settle-append none acts bs = refl
settle-append (some w) [] bs = refl
settle-append (some w) (a ∷ acts) bs = settle-append (settle_one w a) acts bs

finish-settle :
    (end : Bool) (s : TxRadio)
    → (settle (some s.pending) (finish_pending end s).1 ≡ some false)
      × ((finish_pending end s).0.pending ≡ false)
unfolding settle finish_pending
finish-settle end s = ground arith

pkt-settle :
    (end : Bool) (p : Packet) (s : TxRadio)
    → settle (some s.pending) (radio_pkt_tx_set end p s).1
      ≡ some (radio_pkt_tx_set end p s).0.pending
unfolding settle finish_pending radio_pkt_tx_set
pkt-settle end p s = ground arith

other-settle :
    (end : Bool) (param : Option ℕ) (s : TxRadio)
    → settle (some s.pending) (isr_set_other end param s).1
      ≡ some (isr_set_other end param s).0.pending
unfolding settle finish_pending isr_set_other
other-settle end param s = ground arith

conn-settle :
    (end armed : Bool) (cb : Isr) (c : Context) (s : TxRadio)
    → settle (some s.pending) (isr_set_conn end armed cb c s).1
      ≡ some (isr_set_conn end armed cb c s).0.pending
unfolding settle finish_pending isr_set_conn
conn-settle end armed cb c s = ground arith

step-settle :
    (o : Op) (s : TxRadio) → settle (some s.pending) (step o s).1 ≡ some (step o s).0.pending
unfolding step settle radio_ccm_tx_pkt_set radio_status_reset
step-settle (set_conn_isr end armed cb c) s = conn-settle end armed cb c s
step-settle (set_other_isr end param) s = other-settle end param s
step-settle (set_ccm_packet p e) s = refl
step-settle (set_tx_packet end p) s = pkt-settle end p s
step-settle (reset_status end) s = ground (arith, finish-settle end s)

-- Over any calls of the radio, every terminating packet that was set up gets exactly one verdict
-- before the next setup, no verdict comes without a setup, and a packet waits at the end exactly
-- when the module says that one is pending.
pub run-settle :
    (os : List Op) (s : TxRadio) → settle (some s.pending) (run os s).1 ≡ some (run os s).0.pending
unfolding run settle
run-settle [] s = refl
run-settle (o ∷ os) s =
    let s' = (step o s).0 in
    settle-append (some s.pending) (step o s).1 (run os s').1
    ∙ ap (λ w. settle w (run os s').1) (step-settle o s)
    ∙ run-settle os s'
