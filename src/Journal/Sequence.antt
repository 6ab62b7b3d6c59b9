-- ===== src/Journal/Sequence.antt =====
-- Sequence numbers: which events of the ring flash does not have yet.
use totem_zmk_config.Prelude.{
  ℕ, ◌+◌, ◌-◌, ◌≤◌, ◌<◌, ◌≡◌, ◌^◌, List, length, drop, min, arith, length-set, length-drop, Bool,
}
use totem_zmk_config.Config.{journal_slots}
use totem_zmk_config.Event.{Event}
use totem_zmk_config.Journal.{Log, append}
use totem_zmk_config.Journal.Ordered.{IsWf, contents, length-contents}

-- What holds between two calls once the journal is ready, while the 32-bit numbers last.
pub record IsSound (s : Log) : Type 0 where
  pub wf : IsWf s
  pub counted : s.ring_count ≤ s.ring_seq
  pub seq_small : s.ring_seq + 1 < 2 ^ 32
  pub behind : s.persisted_event_seq ≤ s.ring_seq
  pub slot_in : s.next_slot < journal_slots
  pub blocks : length s.restored_blocks ≡ journal_slots
  pub flags : length s.restored_valid ≡ journal_slots

-- How many events the ring holds that no written block does.
abbrev pub backlog : Log → ℕ
backlog s = min s.ring_count (s.ring_seq - s.persisted_event_seq)

-- Those events, oldest first.
abbrev pub pending : Log → List Event
pending s = drop (s.ring_count - backlog s) (contents s)

pub length-pending : (s : Log) → length (pending s) ≡ backlog s
length-pending s = rw (length-drop, length-contents s) (omega arith)

-- `append` keeps the invariant while the sequence numbers last.
pub append-IsSound :
    (s : Log) (e : Event) (persist : Bool)
    → s.ring_seq + 2 < 2 ^ 32
    → IsSound s
    → IsSound (append e persist s).0
unfolding append
append-IsSound s e persist h v = ground (arith, length-set s.ring s.ring_head e)
