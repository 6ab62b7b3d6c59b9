-- ===== src/RadioTx.antt =====
-- src/handoff_radio_tx.c: whether the packet that ends a connection was really sent. `TxRadio` is
-- the static `tx_radio`. A packet and a context are the number of their address, `none` for NULL.
-- The calls of handoff_diagnostics.c are returned in order.
pub mod Settled
mod Tests
use totem_zmk_config.Prelude.{
  ℕ, ◌+◌, Bool, true, false, ◌&&◌, ◌||◌, not, List, [], ◌∷◌, ◌++◌, Option, none, some, ◌==◌, leb,
  if◌then◌else◌,
}

pub record TxRadio : Type 0 where
  pub param : Option ℕ
  pub handle : ℕ
  pub active : Bool
  pub encrypted : Bool
  pub pending : Bool
  pub encrypted_packet : Option ℕ
  pub encrypted_term : Bool

abbrev pub initial : TxRadio
initial = record {
  param = none;
  handle = 0;
  active = false;
  encrypted = false;
  pending = false;
  encrypted_packet = none;
  encrypted_term = false;
}

pub data Call : Type 0 where
  tx_setup : ℕ → Call  -- totem_handoff_tx_setup
  tx_result : ℕ → Bool → Call  -- totem_handoff_tx_result

-- What is read of a packet: its address, its kind, length and opcode.
pub record Packet : Type 0 where
  pub address : ℕ
  pub is_control : Bool
  pub len : ℕ
  pub is_terminate : Bool

-- The function that `radio_isr_set` installs.
pub data Isr : Type 0 where
  conn_isr_rx conn_isr_tx other_isr : Isr

-- What is read of a connection's context, `address` being the context's.
pub record Context : Type 0 where
  pub address : ℕ
  pub handle : ℕ
  pub peripheral : Bool
  pub enc_tx : Bool

pub is_termination : Packet → Bool
is_termination p = p.is_control && leb 2 p.len && p.is_terminate

abbrev pub same_address : Option ℕ → Option ℕ → Bool
same_address none none = true
same_address (some a) (some b) = a == b
same_address _ _ = false

-- `end` is NRF_RADIO_EVENT_END.
pub finish_pending : Bool → TxRadio → TxRadio × List Call
finish_pending end s =
    if s.pending then (record s { pending = false }, tx_result s.handle end ∷ []) else (s, [])

pub is_conn : Isr → Bool
is_conn conn_isr_rx = true
is_conn conn_isr_tx = true
is_conn other_isr = false

pub is_rx : Isr → Bool
is_rx conn_isr_rx = true
is_rx conn_isr_tx = false
is_rx other_isr = false

-- The branch of `__wrap_radio_isr_set` for a connection, with encryption configured; `armed` is
-- what `totem_handoff_tx_armed` says of the handle.
pub isr_set_conn : Bool → Bool → Isr → Context → TxRadio → TxRadio × List Call
isr_set_conn end armed cb c s =
    let (s1, one) = if is_rx cb then finish_pending end s else (s, []) in
    let moved = not (same_address (some c.address) s1.param) in
    let (s2, two) = if moved then finish_pending end s1 else (s1, []) in
    (
      record s2 {
        param = some c.address;
        handle = c.handle;
        active = c.peripheral && armed;
        encrypted = c.enc_tx;
        encrypted_packet = if moved then none else s2.encrypted_packet;
      },
      one ++ two,
    )

-- The branch for another function and the context `param`.
pub isr_set_other : Bool → Option ℕ → TxRadio → TxRadio × List Call
isr_set_other end param s =
    if same_address param s.param
    then (s, [])
    else (let (s', acts) = finish_pending end s in
        (record s' { active = false; encrypted_packet = none; param = none }, acts))

-- `encrypted` is the address that the original returns.
pub radio_ccm_tx_pkt_set : Packet → ℕ → TxRadio → TxRadio
radio_ccm_tx_pkt_set p encrypted s = record s {
  encrypted_packet = some encrypted;
  encrypted_term = s.active && is_termination p;
}

pub is_term_tx : Packet → TxRadio → Bool
is_term_tx p s =
    s.active
    && (if s.encrypted
        then same_address s.encrypted_packet (some p.address) && s.encrypted_term
        else is_termination p)

pub radio_pkt_tx_set : Bool → Packet → TxRadio → TxRadio × List Call
radio_pkt_tx_set end p s =
    let term = is_term_tx p s in
    let (s', acts) = finish_pending end (record s { encrypted_packet = none }) in
    if term then (record s' { pending = true }, acts ++ tx_setup s'.handle ∷ []) else (s', acts)

pub radio_status_reset : Bool → TxRadio → TxRadio × List Call
radio_status_reset = finish_pending

-- The wrapped calls.
pub data Op : Type 0 where
  set_conn_isr : Bool → Bool → Isr → Context → Op
  set_other_isr : Bool → Option ℕ → Op
  set_ccm_packet : Packet → ℕ → Op
  set_tx_packet : Bool → Packet → Op
  reset_status : Bool → Op

pub step : Op → TxRadio → TxRadio × List Call
step (set_conn_isr end armed cb c) s = isr_set_conn end armed cb c s
step (set_other_isr end param) s = isr_set_other end param s
step (set_ccm_packet p e) s = (radio_ccm_tx_pkt_set p e s, [])
step (set_tx_packet end p) s = radio_pkt_tx_set end p s
step (reset_status end) s = radio_status_reset end s

pub run : List Op → TxRadio → TxRadio × List Call
run [] s = (s, [])
run (o ∷ os) s = let (s', acts) = step o s in let (s'', rest) = run os s' in (s'', acts ++ rest)
