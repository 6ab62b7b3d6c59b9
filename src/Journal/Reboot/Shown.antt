-- ===== src/Journal/Reboot/Shown.antt =====
-- What a dump shows of the blocks that were read back.
use mathlib.Core.List.{Memᴰ, reverse, reverse-append}
use totem_zmk_config.Prelude.{
  ℕ, zero, suc, ◌+◌, ◌-◌, ◌%◌, ◌≤◌, ◌<◌, ◌≡◌, ◌≢◌, refl, ap, sym, ◌∙◌, subst, arith, true, false,
  inl, inr, List, [], ◌∷◌, ◌++◌, append_assoc, length, take, take_snoc, take_all, get_or,
  get_or-set_self, get_or-set_ne, length-set, All, Bool-cases, ◌==◌, ltb,
}
use totem_zmk_config.Config.{journal_slots}
use totem_zmk_config.Journal.{Log}
use totem_zmk_config.Journal.Layout.{Block, Payload, zero_block}
use totem_zmk_config.Journal.Dump.{Detail}
use totem_zmk_config.Journal.Dump.Complete.{block_details, slot_details}
use totem_zmk_config.Journal.Restore.{accept}
use totem_zmk_config.Journal.Reboot.{Flash, load}
use totem_zmk_config.Journal.Reboot.Load.{IsStored, read_lem}
use totem_zmk_config.Journal.Reboot.Rotation.{Turns, Turns-slot, Memᴰ-get_or}

-- The lines of blocks, in their order.
abbrev pub all_details : List Block → List Detail
all_details [] = []
all_details (b ∷ bs) = block_details b.slot b ++ all_details bs

-- A log has `b` in its slot.
pub record Holds (t : Log) (b : Block) : Type 0 where
  pub valid : get_or t.restored_valid b.slot false ≡ true
  pub same : get_or t.restored_blocks b.slot zero_block ≡ b

pub record HasSlots (t : Log) : Type 0 where
  pub blocks : length t.restored_blocks ≡ journal_slots
  pub flags : length t.restored_valid ≡ journal_slots

module _ (crc32 : Payload → ℕ) where
  accept-HasSlots : (slot : ℕ) (c : Block) (s : Log) → HasSlots s → HasSlots (accept crc32 slot c s)
  unfolding accept
  accept-HasSlots slot c s h = record {
    blocks = length-set s.restored_blocks slot c ∙ h.blocks;
    flags = length-set s.restored_valid slot true ∙ h.flags;
  }

  accept-Holds :
      (b : Block) (s : Log)
      → b.slot < journal_slots
      → HasSlots s
      → Holds (accept crc32 b.slot b s) b
  unfolding accept
  accept-Holds b s h k = record {
    valid = get_or-set_self s.restored_valid b.slot true false (omega (arith, k.flags));
    same = get_or-set_self s.restored_blocks b.slot b zero_block (omega (arith, k.blocks));
  }

  accept_other :
      (slot : ℕ) (c : Block) (s : Log)
      → c.slot ≢ slot
      → (get_or (accept crc32 c.slot c s).restored_valid slot false
          ≡ get_or s.restored_valid slot false)
        × (get_or (accept crc32 c.slot c s).restored_blocks slot zero_block
            ≡ get_or s.restored_blocks slot zero_block)
  unfolding accept
  accept_other slot c s h = (
    get_or-set_ne s.restored_valid c.slot slot true false h,
    get_or-set_ne s.restored_blocks c.slot slot c zero_block h,
  )

  accept_stays :
      (b c : Block) (s : Log)
      → b.slot < journal_slots
      → HasSlots s
      → (c.slot ≡ b.slot → c ≡ b)
      → Holds s b
      → Holds (accept crc32 c.slot c s) b
  accept_stays b c s h k one v = elim (Bool-cases (c.slot == b.slot)) [
    | inl same ↦
        let e = one (ground arith) in
        subst (λ d. Holds (accept crc32 d.slot d s) b) (sym e) (accept-Holds b s h k)
    | inr other ↦
        let o = accept_other b.slot c s (λ e. absurd (ground arith)) in
        record { valid = o.0 ∙ v.valid; same = o.1 ∙ v.same }
  ]

  load_keeps :
      (b : Block) (f : Flash) (s : Log)
      → b.slot < journal_slots
      → HasSlots s
      → All (IsStored crc32) f
      → All (λ c. c.slot ≡ b.slot → c ≡ b) f
      → Holds s b
      → Holds (load crc32 f s) b
  unfolding load
  load_keeps b [] s h k st one v = v
  load_keeps b (c ∷ f) s h k st one v = rw (read_lem crc32 c s st.0) (
      load_keeps b f (accept crc32 c.slot c s) h (accept-HasSlots c.slot c s k) st.1 one.1
        (accept_stays b c s h k one.0 v))

  -- Each block that is read stands in its slot in the end, where no other block has that slot.
  pub load-Holds :
      (b : Block) (f : Flash) (s : Log)
      → Memᴰ b f
      → HasSlots s
      → All (IsStored crc32) f
      → All (λ c. c.slot ≡ b.slot → c ≡ b) f
      → Holds (load crc32 f s) b
  unfolding load
  load-Holds b [] s m k st one = elim m [ ]
  load-Holds b (c ∷ f) s (Memᴰ.head e) k st one = rw (read_lem crc32 c s st.0) (
      let in_slots : b.slot < journal_slots =
        subst (λ d. d.slot < journal_slots) (sym e) st.0.slot_in in
      load_keeps b f (accept crc32 c.slot c s) in_slots (accept-HasSlots c.slot c s k) st.1 one.1
        (subst (λ d. Holds (accept crc32 d.slot d s) b) e (accept-Holds b s in_slots k)))
  load-Holds b (c ∷ f) s (Memᴰ.tail m) k st one =
      rw (read_lem crc32 c s st.0)
        (load-Holds b f (accept crc32 c.slot c s) m (accept-HasSlots c.slot c s k) st.1 one.1)

  -- A slot of no block stays as it was.
  pub load_empty :
      (slot : ℕ) (f : Flash) (s : Log)
      → All (IsStored crc32) f
      → All (λ c. c.slot ≢ slot) f
      → get_or (load crc32 f s).restored_valid slot false ≡ get_or s.restored_valid slot false
  unfolding load
  load_empty slot [] s st h = refl
  load_empty slot (c ∷ f) s st h =
      ap (λ x. get_or (load crc32 f x).restored_valid slot false) (read_lem crc32 c s st.0)
      ∙ load_empty slot f (accept crc32 c.slot c s) st.1 h.1
      ∙ (accept_other slot c s h.0).0

-- A log that has the blocks of `f` in their slots, and no other.
pub record Shows (f : Flash) (t : Log) : Type 0 where
  pub held : (b : Block) → Memᴰ b f → Holds t b
  pub empty : (slot : ℕ) → All (λ c. c.slot ≢ slot) f → get_or t.restored_valid slot false ≡ false

all_details-append :
    (xs ys : List Block) → all_details (xs ++ ys) ≡ all_details xs ++ all_details ys
all_details-append [] ys = refl
all_details-append (b ∷ xs) ys = simp (all_details-append xs ys, append_assoc)

-- None of fewer than `k` blocks stands `k` slots back.
unused :
    (f : Flash) (next k : ℕ)
    → next < journal_slots
    → length f ≤ k
    → k < journal_slots
    → Turns next f
    → All (λ c. c.slot ≢ (next + (journal_slots - 1 - k)) % journal_slots) f
unused [] next k h l m t = tt
unused (b ∷ bs) next k h l m t = (
  λ e. omega (arith, t.0, t.1),
  subst (λ x. All (λ c. c.slot ≢ x) bs) (omega (arith, t.0, t.1))
      (unused bs b.slot (k - 1) t.0 (omega arith) (omega arith) t.2),
)

-- The newest `k` slots, from the oldest of them on, show the newest `k` blocks, oldest first.
pub Shows-details :
    (f : Flash) (t : Log) (next k : ℕ)
    → k ≤ journal_slots
    → next < journal_slots
    → t.next_slot ≡ next
    → Turns next f
    → Shows f t
    → slot_details t (journal_slots - k) k ≡ all_details (reverse (take k f))
unfolding slot_details
Shows-details f t next zero h n e r v = refl
Shows-details f t next (suc k) h n e r v =
    let rest : slot_details t (journal_slots - suc k + 1) k ≡ all_details (reverse (take k f)) =
      ap (λ x. slot_details t x k) (omega arith) ∙ Shows-details f t next k (omega arith) n e r v in
    let slot = (t.next_slot + (journal_slots - suc k)) % journal_slots in
    elim (Bool-cases (ltb k (length f))) [
      | inl there ↦
          let b = get_or f k zero_block in
          let inside : k < length f = ground arith in
          let held = v.held b (Memᴰ-get_or f k inside) in
          let here : slot ≡ b.slot =
            omega (arith, Turns-slot f next k n inside (omega arith) r, e) in
          rw
            (
              take_snoc k f zero_block inside,
              reverse-append (take k f) (b ∷ []),
              here,
              held.valid,
              held.same,
              rest,
            )
            refl
      | inr gone ↦
          let short : length f ≤ k = ground arith in
          let nobody : get_or t.restored_valid slot false ≡ false = v.empty slot (
            subst (λ x. All (λ c. c.slot ≢ x) f) (omega (arith, e))
              (unused f next k n short (omega arith) r)) in
          rw (nobody, take_all (suc k) f (omega arith), sym (take_all k f short)) rest
    ]
