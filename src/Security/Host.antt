-- ===== src/Security/Host.antt =====
-- src/security_timing.c: the host. A buffer is its bytes; a read outside of them is `none`, which
-- Security.Bounds excludes.
use totem_zmk_config.Prelude.{
  ℕ, zero, suc, ◌+◌, ◌*◌, ◌%◌, Bool, false, ◌&&◌, ◌||◌, not, List, [], ◌∷◌, ◌++◌, length, ltb, leb,
  ◌==◌, if◌then◌else◌, ℤ, magnitude, min, Option, none, some,
}
use totem_zmk_config.Hevt.{Hevt}
use totem_zmk_config.Timing.{TimingRecord}
use totem_zmk_config.Handoff.{capture, sign_code}
use totem_zmk_config.Security.{
  Ref, Real, Action, captured, real, rows, send_pdu, slist_put, slist_get,
}

infixl 5 ◌>>=◌
abbrev pub ◌>>=◌ {ℓ κ} : {A : Type ℓ} {B : Type κ} → Option A → (A → Option B) → Option B
none >>= f = none
some a >>= f = f a

unfoldable pub read : List ℕ → ℕ → Option ℕ
read [] i = none
read (b ∷ bs) zero = some b
read (b ∷ bs) (suc i) = read bs i

-- sys_get_le16
abbrev pub read_le16 : List ℕ → ℕ → Option ℕ
read_le16 bytes i = do low ← read bytes i; high ← read bytes (i + 1); some (low + 256 * high)

-- Zephyr's layout of the events: sizes and offsets of the packed structures, and their codes.
pub record Hci : Type 0 where
  pub header_size : ℕ  -- struct bt_hci_evt_hdr
  pub evt_at : ℕ
  pub len_at : ℕ
  pub le_meta_event : ℕ
  pub meta_size : ℕ
  pub ltk_request : ℕ
  pub ltk_size : ℕ
  pub encrypt_change : ℕ
  pub change_size : ℕ
  pub key_refresh : ℕ
  pub refresh_size : ℕ
  pub handle_at : ℕ
  pub encrypt_at : ℕ

-- A buffer from the queue: whether it is an event, and its bytes.
pub record Buf : Type 0 where
  pub is_event : Bool
  pub bytes : List ℕ

module _ (hci : Hci) where
  unfoldable pub is_ltk_request : List ℕ → ℕ → ℕ → Option Bool
  is_ltk_request bytes evt len =
      if evt == hci.le_meta_event && leb (hci.meta_size + hci.ltk_size) len
      then (read bytes hci.header_size >>= λ subevent. some (subevent == hci.ltk_request))
      else some false

  unfoldable pub ltk_observed : ℕ → List ℕ → ℕ → Option (List TimingRecord)
  ltk_observed now bytes stage = do
    handle ← read_le16 bytes (hci.header_size + hci.meta_size)
    some (capture now Hevt.security_exchange handle ((6 + stage) % 256) 0 0 ∷ [])

  -- The last part of `encryption_observed`: `required` is short enough.
  unfoldable pub change_row : ℕ → List ℕ → Bool → ℕ → Option (List TimingRecord)
  change_row now bytes refresh stage = do
    handle ← read_le16 bytes (hci.header_size + hci.handle_at)
    status ← read bytes hci.header_size
    enabled ← if refresh then some 255 else read bytes (hci.header_size + hci.encrypt_at)
    some (
        capture now Hevt.encrypt_event handle ((stage + (if refresh then 2 else 0)) % 256) status
          enabled
        ∷ [])

  -- The part after the requests for a key.
  unfoldable pub change_observed : ℕ → List ℕ → ℕ → ℕ → ℕ → Option (List TimingRecord)
  change_observed now bytes evt len stage =
      let refresh = evt == hci.key_refresh in
      let required = if refresh then hci.refresh_size else hci.change_size in
      if not (evt == hci.encrypt_change) && not refresh
      then some []
      else if ltb len required || ltb (length bytes) (hci.header_size + len)
      then some []
      else change_row now bytes refresh stage

  unfoldable pub event_observed : ℕ → List ℕ → ℕ → ℕ → ℕ → Option (List TimingRecord)
  event_observed now bytes evt len stage =
      if ltb (length bytes) (hci.header_size + len) then some [] else (do
        ltk ← is_ltk_request bytes evt len
        if ltk then ltk_observed now bytes stage else change_observed now bytes evt len stage)

  -- `buf` is `none` where it is NULL; `rx` is whether the list is the queue of received buffers.
  unfoldable pub encryption_observed : ℕ → Bool → Option Buf → ℕ → Option (List TimingRecord)
  encryption_observed now rx none stage = some []
  encryption_observed now rx (some buf) stage =
      if not rx || not buf.is_event || ltb (length buf.bytes) hci.header_size then some [] else (do
        evt ← read buf.bytes hci.evt_at
        len ← read buf.bytes hci.len_at
        event_observed now buf.bytes evt len stage)

  -- __wrap_net_buf_slist_put and __wrap_net_buf_slist_get: the arguments, then what is seen behind
  -- them; `taken` is what the original returns.
  unfoldable pub net_buf_slist_put : Ref → Ref → ℕ → Bool → Option Buf → Option (List Action)
  net_buf_slist_put list buf now rx seen_buf = encryption_observed now rx seen_buf 0 >>= λ seen.
      some (rows seen ++ real (slist_put list buf) ∷ [])

  unfoldable pub net_buf_slist_get : Ref → ℕ → Bool → Option Buf → Option (List Action)
  net_buf_slist_get list now rx taken =
      encryption_observed now rx taken 1 >>= λ seen. some (real (slist_get list) ∷ rows seen)

-- A packet and its channel: whether the channel has a connection, the channel is SMP's, the packet
-- has 2 bytes, which are a security request, and the connection is LE, as a peripheral.
pub record Packet : Type 0 where
  pub has_conn : Bool
  pub is_smp : Bool
  pub len : ℕ
  pub is_security_request : Bool
  pub is_le : Bool
  pub is_peripheral : Bool
  pub handle : ℕ

unfoldable pub traced : Packet → Bool
traced p =
    p.has_conn && p.is_smp && p.len == 2 && p.is_security_request && p.is_le && p.is_peripheral

-- __wrap_bt_l2cap_send_pdu; `err` is what the original returns at `later`, and is returned.
unfoldable pub l2cap_send_pdu : Ref → Ref → Ref → Ref → ℕ → ℕ → Packet → ℤ → List Action × ℤ
l2cap_send_pdu chan buf cb user_data now later p err = (
  if traced p
      then captured (capture now Hevt.security_exchange p.handle 0 0 0)
        ∷ real (send_pdu chan buf cb user_data)
        ∷ captured (
            capture later Hevt.security_exchange p.handle 1 (sign_code err)
              (min (magnitude err) 255))
        ∷ []
      else real (send_pdu chan buf cb user_data) ∷ [],
  err,
)

-- A connection as `security_observed` sees it.
pub record HostConn : Type 0 where
  pub is_le : Bool
  pub is_peripheral : Bool
  pub handle : ℕ
  pub sec_level : ℕ

unfoldable pub security_observed : ℕ → HostConn → ℕ → ℕ → List Action
security_observed now c stage hci_status =
    if c.is_le && c.is_peripheral
    then captured (capture now Hevt.security_timing c.handle stage hci_status (c.sec_level % 256))
      ∷ []
    else []

-- __wrap_bt_conn_security_changed; `after` is the connection once the original has returned.
unfoldable pub conn_security_changed : Ref → ℕ → ℕ → ℕ → ℕ → HostConn → HostConn → List Action
conn_security_changed conn hci_err err now later before after =
    security_observed now before 0 hci_err
    ++ (real (Real.security_changed conn hci_err err) ∷ security_observed later after 2 hci_err)

-- __wrap_bt_l2cap_security_changed
unfoldable pub l2cap_security_changed : Ref → ℕ → ℕ → HostConn → List Action
l2cap_security_changed conn hci_status later after =
    real (Real.l2cap_security_changed conn hci_status) ∷ security_observed later after 1 hci_status
