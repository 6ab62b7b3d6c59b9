-- ===== src/Journal/Restore/Accept.antt =====
-- Which stored blocks the settings handler takes, and which it refuses.
use totem_zmk_config.Prelude.{
  ℕ, ◌<◌, ◌≤◌, ◌≡◌, refl, ap, ◌∙◌, arith, true, false, ◌&&◌, ◌==◌, Bool-cases, inl, inr, List, set,
  drop, ℤ, pos, is_neg, int_eq→≡, if◌then◌else◌, some,
}
use totem_zmk_config.Config.{journal_slots, block_events}
use totem_zmk_config.Boot.{Read}
use totem_zmk_config.Journal.{Log}
use totem_zmk_config.Journal.Layout.{Payload, Block, block_magic, block_version}
use totem_zmk_config.Journal.Sequence.{IsSound}
use totem_zmk_config.Journal.Persist.{key, writing, persist_begin}
use totem_zmk_config.Journal.Persist.Copy.{Written}
use totem_zmk_config.Journal.Persist.Progress.{Sealed, persist_begin-Written, persist_begin-Sealed}
use totem_zmk_config.Journal.Restore.{
  name_slot, block_size, is_valid, accept, set_slot, settings_set, last_seq,
}

-- The name that the handler sees for a key: the subtree "th" is matched by the settings code.
abbrev pub name_of : ℕ → List ℕ
name_of slot = drop 3 (key slot)

name_slot-name_of : (slot : ℕ) → slot < journal_slots → name_slot (name_of slot) ≡ some slot
unfolding name_slot
name_slot-name_of slot h = ground arith

module _ (crc32 : Payload → ℕ) where
  settings_set_by_slot :
      (slot : ℕ) (r : Read Block) (s : Log)
      → slot < journal_slots
      → settings_set crc32 (name_of slot) r s ≡ set_slot crc32 (some slot) r s
  unfolding settings_set
  settings_set_by_slot slot r s h = ap (λ o. set_slot crc32 o r s) (name_slot-name_of slot h)

  -- What a stored value must be like: written whole, in this format, for this slot, with its checksum.
  pub record IsGenuine (slot : ℕ) (r : Read Block) : Type 0 where
    pub whole_len : r.len ≡ block_size
    pub whole_read : r.rc ≡ pos block_size
    pub magic_fits : r.value.magic ≡ block_magic
    pub version_fits : r.value.version ≡ block_version
    pub slot_fits : r.value.slot ≡ slot
    pub some_events : 0 < r.value.count
    pub room_for_events : r.value.count ≤ block_events
    pub crc_fits : r.value.crc ≡ crc32 r.value.payload

  is_valid-IsGenuine :
      (slot : ℕ) (r : Read Block)
      → r.len ≡ block_size
      → is_valid crc32 slot r.rc r.value ≡ true
      → IsGenuine slot r
  is_valid-IsGenuine slot r l v = record {
    whole_len = l;
    whole_read = int_eq→≡ r.rc (pos block_size) ground arith;
    magic_fits = ground arith;
    version_fits = ground arith;
    slot_fits = ground arith;
    some_events = ground arith;
    room_for_events = ground arith;
    crc_fits = ground arith;
  }

  -- What the handler leaves of a value that it refuses.
  abbrev pub refused : ℕ → Read Block → Log → Log × ℤ
  refused slot r s =
      if r.len == block_size
      then (
        record s { restored_blocks = set s.restored_blocks slot r.value },
        if is_neg r.rc then r.rc else pos 0,
      )
      else (s, pos 0)

  set_slot_refuses :
      (slot : ℕ) (r : Read Block) (s : Log)
      → slot < journal_slots
      → r.len == block_size && is_valid crc32 slot r.rc r.value ≡ false
      → set_slot crc32 (some slot) r s ≡ refused slot r s
  unfolding set_slot
  set_slot_refuses slot r s h i = ground arith

  -- A value for one of the journal's slots that is not genuine in any one respect, its length, the
  -- read, its magic number, version, slot, number of events or checksum, is refused: whether a slot
  -- is valid, the place and number of the next block, the last saved event number and the ring stay
  -- as they were, no buffer but that slot's changes, that one only on the right length, and a failed
  -- read of the right length gives its error.
  pub settings_set-refuses :
      (slot : ℕ) (r : Read Block) (s : Log)
      → slot < journal_slots
      → ¬ IsGenuine slot r
      → settings_set crc32 (name_of slot) r s ≡ refused slot r s
  settings_set-refuses slot r s h not_genuine =
      settings_set_by_slot slot r s h
      ∙ set_slot_refuses slot r s h
          (elim (Bool-cases (r.len == block_size && is_valid crc32 slot r.rc r.value)) [
            | inr e ↦ e
            | inl e ↦ absurd (not_genuine (is_valid-IsGenuine slot r ground arith ground arith))
          ])

  set_slot_valid :
      (slot : ℕ) (r : Read Block) (s : Log)
      → slot < journal_slots
      → r.len ≡ block_size
      → r.rc ≡ pos block_size
      → is_valid crc32 slot r.rc r.value ≡ true
      → set_slot crc32 (some slot) r s ≡ (accept crc32 slot r.value s, pos 0)
  unfolding set_slot
  set_slot_valid slot r s h l i v = ground arith

  abbrev pub whole : Block → Read Block
  whole block = record { len = block_size; rc = pos block_size; value = block }

  -- A valid block, read back whole, is accepted.
  pub settings_set_valid :
      (block : Block) (s : Log)
      → block.slot < journal_slots
      → is_valid crc32 block.slot (pos block_size) block ≡ true
      → settings_set crc32 (name_of block.slot) (whole block) s
        ≡ (accept crc32 block.slot block s, pos 0)
  settings_set_valid block s h v =
      settings_set_by_slot block.slot (whole block) s h
      ∙ set_slot_valid block.slot (whole block) s h refl refl v

  pub Written-is_valid :
      (s s' : Log) (block : Block) (last : ℕ)
      → Written s s' block last
      → Sealed crc32 block
      → is_valid crc32 block.slot (pos block_size) block ≡ true
  Written-is_valid s s' block last w e = ground arith

  pub Written-last_seq :
      (s s' : Log) (block : Block) (last : ℕ)
      → IsSound s
      → Written s s' block last
      → last_seq block ≡ last
  Written-last_seq s s' block last v w = omega arith

  -- A block that `persist` writes from a sound log, read back whole after a reset, is accepted by the settings
  -- handler into its own slot, and the last event that it counts as saved is the one that `persist`
  -- counted.
  pub settings_set-persist_begin :
      (now : ℕ) (s t s' : Log) (block : Block) (last : ℕ)
      → IsSound s
      → persist_begin crc32 now s ≡ writing s' block last
      → (settings_set crc32 (name_of block.slot) (whole block) t
          ≡ (accept crc32 block.slot block t, pos 0))
        × (last_seq block ≡ last)
  settings_set-persist_begin now s t s' block last v h =
      let w = persist_begin-Written crc32 now s v h in
      let e = persist_begin-Sealed crc32 now s h in
      (
        settings_set_valid block t (omega arith) (Written-is_valid s s' block last w e),
        Written-last_seq s s' block last v w,
      )
