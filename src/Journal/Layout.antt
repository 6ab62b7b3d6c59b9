-- ===== src/Journal/Layout.antt =====
-- src/host_event_log.c, `struct totem_diag_block`: one settings value for each slot of the journal.
use totem_zmk_config.Prelude.{ℕ, List, replicate}
use totem_zmk_config.Config.{block_events}
use totem_zmk_config.Event.{Event, zero_event}

-- The bytes that the CRC covers.
pub record Payload : Type 0 where
  pub magic : ℕ
  pub version : ℕ
  pub slot : ℕ
  pub count : ℕ
  pub journal_seq : ℕ
  pub first_event_seq : ℕ
  pub ev : List Event

pub record Block : Type 0 where
  pub payload : Payload
  pub open payload use *
  pub crc : ℕ

abbrev pub block_magic : ℕ
block_magic = 0x54444c47

abbrev pub block_version : ℕ
block_version = 1

abbrev pub zero_block : Block
zero_block = record {
  payload = record {
    magic = 0;
    version = 0;
    slot = 0;
    count = 0;
    journal_seq = 0;
    first_event_seq = 0;
    ev = replicate block_events zero_event;
  };
  crc = 0;
}
