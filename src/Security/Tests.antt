-- ===== src/Security/Tests.antt =====
-- The theorems on the security timing at concrete buffers.
use totem_zmk_config.Prelude.{◌≡◌, ◌≤◌, arith, true, List, [], ◌∷◌, some, length}
use totem_zmk_config.Timing.{TimingRecord}
use totem_zmk_config.Security.Host.{Hci, Buf, encryption_observed}
use totem_zmk_config.Security.Controller.{Opcodes}
use totem_zmk_config.Security.Bounds.{IsLayout, encryption_observed-Returns}
use totem_zmk_config.Security.Transparent.{Call, put}

-- The values of the Bluetooth specification.
abbrev hci : Hci
hci = record {
  header_size = 2;
  evt_at = 0;
  len_at = 1;
  le_meta_event = 0x3e;
  meta_size = 1;
  ltk_request = 5;
  ltk_size = 12;
  encrypt_change = 8;
  change_size = 4;
  key_refresh = 0x30;
  refresh_size = 3;
  handle_at = 1;
  encrypt_at = 3;
}

abbrev hci-IsLayout : IsLayout hci
hci-IsLayout = record {
  evt_in = omega arith;
  len_in = omega arith;
  ltk_in = omega arith;
  handle_in_refresh = omega arith;
  handle_in_change = omega arith;
  encrypt_in = omega arith;
}

-- Encryption is on for handle 3.
abbrev change : Buf
change = record { is_event = true; bytes = 8 ∷ 4 ∷ 0 ∷ 3 ∷ 0 ∷ 1 ∷ [] }

encryption_observed-Returns_example :
    (rs : List TimingRecord) × (encryption_observed hci 40 true (some change) 1 ≡ some rs)
    × (length rs ≤ 1)
encryption_observed-Returns_example =
    encryption_observed-Returns hci hci-IsLayout 40 true (some change) 1

abbrev opcodes : Opcodes
opcodes = record {
  enc_req = (3, 23);
  enc_rsp = (4, 13);
  start_enc_req = (5, 1);
  start_enc_rsp = (6, 1);
}

abbrev call : Call
call = put 0x20001000 0x20002000 40 true (some change)
