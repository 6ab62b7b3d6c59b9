-- ===== src/Journal/Persist/Copy.antt =====
-- The block that is written holds the oldest pending events, in their order.
use totem_zmk_config.Prelude.{
  ℕ, zero, suc, ◌+◌, ◌-◌, ◌^◌, ◌≤◌, ◌<◌, ◌≡◌, refl, ap, arith, List, ◌++◌, take, drop, min,
  replicate, ap₂, take-min, ge_of_ltb, ltb, false,
}
use totem_zmk_config.Config.{ring_cap, block_events}
use totem_zmk_config.Event.{Event, zero_event}
use totem_zmk_config.Journal.{Log, read_from, oldest}
use totem_zmk_config.Journal.Layout.{Payload, Block}
use totem_zmk_config.Journal.Sequence.{IsSound, backlog, pending, length-pending}
use totem_zmk_config.Journal.Persist.{
  copy_events, first_available, first_new, block_count, new_payload, new_block, add32, sub32,
}

-- With no wrap, the copy reads the ring from the offset of the first new event on.
copy_events-read_from :
    (ring : List Event) (start available new i n : ℕ)
    → available ≤ new
    → new + i + n ≤ available + ring_cap
    → new + i + n < 2 ^ 32
    → copy_events ring start available new i n ≡ read_from ring start (new - available + i) n
unfolding copy_events read_from
copy_events-read_from ring start available new i zero h k l = refl
copy_events-read_from ring start available new i (suc n) h k l =
    ground (arith, copy_events-read_from ring start available new (i + 1) n)

read_from-drop :
    (ring : List Event) (start i k n : ℕ)
    → k ≤ n
    → drop k (read_from ring start i n) ≡ read_from ring start (i + k) (n - k)
unfolding read_from
read_from-drop ring start i zero n h = ground arith
read_from-drop ring start i (suc k) (suc n) h =
    ground (arith, read_from-drop ring start (i + 1) k n)
read_from-drop ring start i (suc k) zero h = elim h [ ]

read_from-take :
    (ring : List Event) (start i k n : ℕ)
    → k ≤ n
    → take k (read_from ring start i n) ≡ read_from ring start i k
unfolding read_from
read_from-take ring start i zero n h = refl
read_from-take ring start i (suc k) (suc n) h =
    ground (arith, read_from-take ring start (i + 1) k n)
read_from-take ring start i (suc k) zero h = elim h [ ]

-- The numbers of the block that is about to be written.
pub first_new_lem : (s : Log) → IsSound s → first_new s + backlog s ≡ s.ring_seq + 1
first_new_lem s v = ground arith

pub first_available_lem : (s : Log) → IsSound s → first_available s + s.ring_count ≡ s.ring_seq + 1
first_available_lem s v = ground arith

pub block_count_lem :
    (s : Log) → IsSound s → 0 < backlog s → block_count s ≡ min (backlog s) block_events
block_count_lem s v h = omega (arith, first_new_lem s v)

-- With a pending event the loop copies the oldest `block_events` of them, or all.
copied :
    (s : Log)
    → IsSound s
    → 0 < backlog s
    → copy_events s.ring (oldest s) (first_available s) (first_new s) 0 (block_count s)
      ≡ take (min (backlog s) block_events) (pending s)
copied s v h =
    rw
      (
        block_count_lem s v h,
        copy_events-read_from s.ring (oldest s) (first_available s) (first_new s) 0
            (min (backlog s) block_events)
            (omega (arith, first_new_lem s v, first_available_lem s v))
            (omega (arith, first_new_lem s v, first_available_lem s v))
            (omega (arith, first_new_lem s v)),
        read_from-drop s.ring (oldest s) 0 (s.ring_count - backlog s) s.ring_count (omega arith),
        read_from-take s.ring (oldest s) (0 + (s.ring_count - backlog s))
            (min (backlog s) block_events) (s.ring_count - (s.ring_count - backlog s))
            (omega arith),
      )
      (ap (λ k. read_from s.ring (oldest s) k (min (backlog s) block_events))
        (omega (arith, first_new_lem s v, first_available_lem s v)))

-- What `persist_begin` decides to write.
pub record Written (s : Log) (s' : Log) (block : Block) (last : ℕ) : Type 0 where
  pub some_pending : 0 < backlog s
  pub oldest_first :
      block.ev ≡ take block_events (pending s) ++ replicate (block_events - backlog s) zero_event
  pub how_many : block.count ≡ min (backlog s) block_events
  pub first : block.first_event_seq + backlog s ≡ s.ring_seq + 1
  pub up_to : last + 1 ≡ block.first_event_seq + block.count
  pub where_to : block.slot ≡ s.next_slot
  pub after : s' ≡ record s { journal_seq = add32 s.journal_seq 1; persist_requested = false }

pub pending_of_write : (s : Log) → IsSound s → ltb s.ring_seq (first_new s) ≡ false → 0 < backlog s
pending_of_write s v h = omega (arith, first_new_lem s v, ge_of_ltb s.ring_seq (first_new s) h)

payload-ev :
    (s : Log)
    → IsSound s
    → 0 < backlog s
    → (new_payload s).ev
      ≡ take block_events (pending s) ++ replicate (block_events - backlog s) zero_event
unfolding new_payload
payload-ev s v h = rw (copied s v h) (
    ap₂ ◌++◌
      (take-min (min (backlog s) block_events) block_events (pending s)
        (omega (arith, length-pending s)))
      (ap (λ k. replicate k zero_event) (omega (arith, block_count_lem s v h))))

pub payload-Written :
    (crc32 : Payload → ℕ) (s : Log)
    → IsSound s
    → 0 < backlog s
    → Written s
        (record s { journal_seq = add32 s.journal_seq 1; persist_requested = false })
        (new_block crc32 s)
        (sub32 (add32 (first_new s) (block_count s)) 1)
unfolding new_payload new_block
payload-Written crc32 s v h = record {
  some_pending = h;
  oldest_first = payload-ev s v h;
  how_many = omega (arith, block_count_lem s v h);
  first = first_new_lem s v;
  up_to = omega (arith, block_count_lem s v h, first_new_lem s v);
  where_to = refl;
  after = refl;
}
