-- ===== src/Journal/Reboot/Rotation.antt =====
-- The blocks of flash, newest first, stand in consecutive slots before the next one.
use totem_zmk_config.Prelude.{
  ℕ, zero, suc, ◌+◌, ◌-◌, ◌%◌, ◌≤◌, ◌<◌, ◌≡◌, refl, ap, sym, ◌∙◌, arith, inl, inr, [], ◌∷◌, length,
  take, take-nil, take-cons, get_or, Bool-cases, ◌==◌,
}
use mathlib.Core.List.{Memᴰ}
use totem_zmk_config.Config.{journal_slots}
use totem_zmk_config.Journal.Layout.{Block, zero_block}
use totem_zmk_config.Journal.Reboot.{Flash, without}

abbrev pub Turns : ℕ → Flash → Type 0
Turns next [] = Unit {0}
Turns next (b ∷ bs) =
    (b.slot < journal_slots) × (next ≡ (b.slot + 1) % journal_slots) × Turns b.slot bs

-- A block for the next slot replaces the one that stands a whole turn back, if there is one; `j`
-- blocks stand before `f`.
pub without-take :
    (f : Flash) (s j next : ℕ)
    → s < journal_slots
    → (s + j) % journal_slots ≡ next
    → j + length f ≤ journal_slots
    → Turns s f
    → without next f ≡ take (journal_slots - 1 - j) f
without-take [] s j next h e l t = sym (take-nil (journal_slots - 1 - j))
without-take (b ∷ bs) s j next h e l t =
    let rest = without-take bs b.slot (j + 1) next t.0 (omega arith) (omega arith) t.2 in
    elim (Bool-cases (b.slot == next)) [
      | inl same ↦
          let last : journal_slots - 1 - j ≡ 0 = ground arith in
          let over : journal_slots - 1 - (j + 1) ≡ 0 = omega (arith, last) in
          rw same (rest ∙ ap (λ k. take k bs) over ∙ sym (ap (λ k. take k (b ∷ bs)) last))
      | inr other ↦ rw other (
          ap (λ xs. b ∷ xs) rest
          ∙ sym
              (take-cons (journal_slots - 1 - (j + 1)) (journal_slots - 1 - j) b bs (ground arith)))
    ]

pub Turns-take : (n next : ℕ) (f : Flash) → Turns next f → Turns next (take n f)
Turns-take zero next f t = tt
Turns-take (suc n) next [] t = tt
Turns-take (suc n) next (b ∷ bs) t = (t.0, t.1, Turns-take n b.slot bs t.2)

-- The slot of the block at place `i`.
pub Turns-slot :
    (f : Flash) (next i : ℕ)
    → next < journal_slots
    → i < length f
    → i < journal_slots
    → Turns next f
    → (get_or f i zero_block).slot ≡ (next + (journal_slots - 1 - i)) % journal_slots
Turns-slot [] next i h k l t = absurd (omega arith)
Turns-slot (b ∷ bs) next zero h k l t = omega (arith, t.0, t.1)
Turns-slot (b ∷ bs) next (suc i) h k l t =
    omega (arith, t.0, t.1, Turns-slot bs b.slot i t.0 (omega arith) (omega arith) t.2)

-- Where a block of the list stands.
pub place :
    (c : Block) (f : Flash) → Memᴰ c f → (i : ℕ) × (i < length f) × (get_or f i zero_block ≡ c)
place c [] m = elim m [ ]
place c (d ∷ f) (Memᴰ.head e) = (0, omega arith, sym e)
place c (d ∷ f) (Memᴰ.tail m) = let (i, h, e) = place c f m in (suc i, omega arith, e)

pub Memᴰ-get_or : (f : Flash) (i : ℕ) → i < length f → Memᴰ (get_or f i zero_block) f
Memᴰ-get_or [] i h = absurd (omega arith)
Memᴰ-get_or (b ∷ f) zero h = Memᴰ.head refl
Memᴰ-get_or (b ∷ f) (suc i) h = Memᴰ.tail (Memᴰ-get_or f i (omega arith))

-- No two blocks have one slot.
pub one_in_slot :
    (f : Flash) (next : ℕ) (b c : Block)
    → next < journal_slots
    → length f ≤ journal_slots
    → Turns next f
    → Memᴰ b f
    → Memᴰ c f
    → c.slot ≡ b.slot
    → c ≡ b
one_in_slot f next b c h l t mb mc e =
    let (i, hi, at_i) = place b f mb in
    let (j, hj, at_j) = place c f mc in
    let si : b.slot ≡ (next + (journal_slots - 1 - i)) % journal_slots =
      ap (λ x. x.slot) (sym at_i) ∙ Turns-slot f next i h hi (omega arith) t in
    let sj : c.slot ≡ (next + (journal_slots - 1 - j)) % journal_slots =
      ap (λ x. x.slot) (sym at_j) ∙ Turns-slot f next j h hj (omega arith) t in
    let same : j ≡ i = omega (arith, si, sj, e) in
    sym at_j ∙ ap (λ k. get_or f k zero_block) same ∙ at_i
