-- ===== src/Journal/Reboot/Load.antt =====
-- Reading the blocks back finds the newest one, whatever their order.
use totem_zmk_config.Prelude.{
  ℕ, ◌+◌, ◌%◌, ◌≤◌, ◌<◌, ◌≡◌, refl, ap, ◌∙◌, arith, subst, true, [], ◌∷◌, length, pos, All,
  length-set,
}
use mathlib.Core.List.{Memᴰ}
use totem_zmk_config.Config.{journal_slots}
use totem_zmk_config.Journal.{Log}
use totem_zmk_config.Journal.Layout.{Block, Payload}
use totem_zmk_config.Journal.Restore.{is_valid, accept, last_seq, block_size, settings_set}
use totem_zmk_config.Journal.Restore.Accept.{name_of, whole, settings_set_valid}
use totem_zmk_config.Journal.Reboot.{Flash, load}

-- What reading does not touch.
pub record Kept (s t : Log) : Type 0 where
  pub ring : t.ring ≡ s.ring
  pub head : t.ring_head ≡ s.ring_head
  pub count : t.ring_count ≡ s.ring_count
  pub ready : t.journal_ready ≡ s.journal_ready
  pub blocks : length t.restored_blocks ≡ length s.restored_blocks
  pub flags : length t.restored_valid ≡ length s.restored_valid

-- `c` is no newer than `b`.
pub record IsBehind (b c : Block) : Type 0 where
  pub seq : c.journal_seq ≤ b.journal_seq
  pub same : c.journal_seq ≡ b.journal_seq → c.slot ≡ b.slot
  pub last : last_seq c ≤ last_seq b

-- The numbers of a log are those of `b`, or below them.
pub record IsAt (b : Block) (s : Log) : Type 0 where
  pub seq : s.journal_seq ≡ b.journal_seq
  pub next : s.next_slot ≡ (b.slot + 1) % journal_slots
  pub last : s.persisted_event_seq ≡ last_seq b

pub record IsBelow (b : Block) (s : Log) : Type 0 where
  pub seq : s.journal_seq ≤ b.journal_seq
  pub last : s.persisted_event_seq ≤ last_seq b

module _ (crc32 : Payload → ℕ) where
  -- A block that the handler takes.
  pub record IsStored (b : Block) : Type 0 where
    pub slot_in : b.slot < journal_slots
    pub valid : is_valid crc32 b.slot (pos block_size) b ≡ true

  pub read_lem :
      (b : Block) (s : Log)
      → IsStored b
      → (settings_set crc32 (name_of b.slot) (whole crc32 b) s).0 ≡ accept crc32 b.slot b s
  read_lem b s h = ap (λ r. r.0) (settings_set_valid crc32 b s h.slot_in h.valid)

  accept-IsAt : (b : Block) (s : Log) → IsBelow b s → IsAt b (accept crc32 b.slot b s)
  unfolding accept
  accept-IsAt b s h = record { seq = ground arith; next = ground arith; last = ground arith }

  accept-stays :
      (b c : Block) (s : Log) → IsBehind b c → IsAt b s → IsAt b (accept crc32 c.slot c s)
  unfolding accept
  accept-stays b c s h a = record { seq = ground arith; next = ground arith; last = ground arith }

  accept-IsBelow :
      (b c : Block) (s : Log) → IsBehind b c → IsBelow b s → IsBelow b (accept crc32 c.slot c s)
  unfolding accept
  accept-IsBelow b c s h a = record { seq = ground arith; last = ground arith }

  accept-Kept : (c : Block) (s : Log) → Kept s (accept crc32 c.slot c s)
  unfolding accept
  accept-Kept c s = record {
    ring = refl;
    head = refl;
    count = refl;
    ready = refl;
    blocks = length-set s.restored_blocks c.slot c;
    flags = length-set s.restored_valid c.slot true;
  }

  pub load-Kept : (f : Flash) (s : Log) → All IsStored f → Kept s (load crc32 f s)
  unfolding load
  load-Kept [] s h = record {
    ring = refl;
    head = refl;
    count = refl;
    ready = refl;
    blocks = refl;
    flags = refl;
  }
  load-Kept (c ∷ cs) s h = rw (read_lem c s h.0) (
      let a = accept-Kept c s in
      let k = load-Kept cs (accept crc32 c.slot c s) h.1 in
      record {
        ring = k.ring ∙ a.ring;
        head = k.head ∙ a.head;
        count = k.count ∙ a.count;
        ready = k.ready ∙ a.ready;
        blocks = k.blocks ∙ a.blocks;
        flags = k.flags ∙ a.flags;
      })

  load-stays :
      (b : Block) (f : Flash) (s : Log)
      → All IsStored f
      → All (IsBehind b) f
      → IsAt b s
      → IsAt b (load crc32 f s)
  unfolding load
  load-stays b [] s h k a = a
  load-stays b (c ∷ cs) s h k a =
      rw (read_lem c s h.0)
        (load-stays b cs (accept crc32 c.slot c s) h.1 k.1 (accept-stays b c s k.0 a))

  -- Reading blocks of which `b` is the newest leaves the log at `b`, whatever their order.
  pub load-IsAt :
      (b : Block) (f : Flash) (s : Log)
      → Memᴰ b f
      → All IsStored f
      → All (IsBehind b) f
      → IsBelow b s
      → IsAt b (load crc32 f s)
  unfolding load
  load-IsAt b [] s m h k a = elim m [ ]
  load-IsAt b (c ∷ cs) s (Memᴰ.head e) h k a = rw (read_lem c s h.0) (
      load-stays b cs (accept crc32 c.slot c s) h.1 k.1
        (subst (λ d. IsAt b (accept crc32 d.slot d s)) e (accept-IsAt b s a)))
  load-IsAt b (c ∷ cs) s (Memᴰ.tail m) h k a =
      rw (read_lem c s h.0)
        (load-IsAt b cs (accept crc32 c.slot c s) m h.1 k.1 (accept-IsBelow b c s k.0 a))
