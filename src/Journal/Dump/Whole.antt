-- ===== src/Journal/Dump/Whole.antt =====
-- A dump whose lines are all taken is complete.
use totem_zmk_config.Prelude.{
  ℕ, zero, suc, ◌+◌, ◌%◌, ◌^◌, ◌<◌, ◌≡◌, refl, ap, sym, ◌∙◌, arith, Bool, true, false, List, [],
  ◌∷◌, ◌++◌, length, length-append, get_or, inl, inr, Bool-cases, leb, if◌then◌else◌, append_assoc,
  ℤ, pos,
}
use totem_zmk_config.Config.{journal_slots}
use totem_zmk_config.Event.{Event}
use totem_zmk_config.Journal.{Log, ring_get_ordered}
use totem_zmk_config.Journal.Ordered.{length-contents, ordered-contents}
use totem_zmk_config.Journal.Layout.{Block, zero_block}
use totem_zmk_config.Journal.Persist.{add32, sub32}
use totem_zmk_config.Journal.Dump.{
  Detail, Line, data_line, end_line, Dump, attempts, dump_send, dump_data, dump_detail, dump_body,
  count_slots, expected, dump_journal,
}
use totem_zmk_config.Journal.Dump.Complete.{
  stored_details, block_details, slot_details, ring_details, details, data_lines, send_details,
  body-send, send-Progress, begin_of, finish, close_lines,
}

-- The lines of a slot: one for its block, and one for each event.
abbrev weight : Log → ℕ → ℕ
weight s slot =
    if get_or s.restored_valid slot false
    then 1 + (get_or s.restored_blocks slot zero_block).count
    else 0

-- Over `k` slots, from `slot` on, and from the oldest slot on.
total : Log → ℕ → ℕ → ℕ
total s slot zero = 0
total s slot (suc k) = weight s slot + total s (slot + 1) k

turned : Log → ℕ → ℕ → ℕ
turned s off zero = 0
turned s off (suc k) = weight s ((s.next_slot + off) % journal_slots) + turned s (off + 1) k

count_slots-total :
    (s : Log) (slot k : ℕ) → (count_slots s slot k).0 + (count_slots s slot k).1 ≡ total s slot k
unfolding count_slots total
count_slots-total s slot zero = refl
count_slots-total s slot (suc k) = ground (arith, count_slots-total s (slot + 1) k)

length-stored_details :
    (slot : ℕ) (block : Block) (i k : ℕ) → length (stored_details slot block i k) ≡ k
unfolding stored_details
length-stored_details slot block i zero = refl
length-stored_details slot block i (suc k) = ap suc (length-stored_details slot block (i + 1) k)

length-slot_details : (s : Log) (off k : ℕ) → length (slot_details s off k) ≡ turned s off k
unfolding slot_details turned block_details
length-slot_details s off zero = refl
length-slot_details s off (suc k) =
    let slot = (s.next_slot + off) % journal_slots in
    let block = get_or s.restored_blocks slot zero_block in
    let rest = slot_details s (off + 1) k in
    elim (Bool-cases (get_or s.restored_valid slot false)) [
      | inl valid ↦ rw valid (
          omega (
            arith,
            length-append (block_details slot block) rest,
            length-stored_details slot block 0 block.count,
            length-slot_details s (off + 1) k,
          ))
      | inr empty ↦ rw empty (omega (arith, length-slot_details s (off + 1) k))
    ]

length-ring_details : (seq : ℕ) (es : List Event) → length (ring_details seq es) ≡ length es
unfolding ring_details
length-ring_details seq [] = refl
length-ring_details seq (e ∷ es) = ap suc (length-ring_details (add32 seq 1) es)

length-ring_get_ordered : (s : Log) → length (ring_get_ordered s) ≡ s.ring_count
length-ring_get_ordered s = ap length (ordered-contents s) ∙ length-contents s

-- The slots from the oldest on are all the slots.
turned-total :
    (s : Log) (start : ℕ)
    → s.next_slot ≡ start
    → start < journal_slots
    → turned s 0 journal_slots ≡ total s 0 journal_slots
unfolding turned total
turned-total s zero e h = rw e (omega arith)
turned-total s (suc zero) e h = rw e (omega arith)
turned-total s (suc (suc zero)) e h = rw e (omega arith)
turned-total s (suc (suc (suc zero))) e h = rw e (omega arith)
turned-total s (suc (suc (suc (suc zero)))) e h = rw e (omega arith)
turned-total s (suc (suc (suc (suc (suc zero))))) e h = rw e (omega arith)
turned-total s (suc (suc (suc (suc (suc (suc zero)))))) e h = rw e (omega arith)
turned-total s (suc (suc (suc (suc (suc (suc (suc zero))))))) e h = rw e (omega arith)
turned-total s (suc (suc (suc (suc (suc (suc (suc (suc k)))))))) e h = absurd (omega arith)

-- The announced number of lines is that of the journal's lines.
expected-details :
    (s : Log)
    → s.next_slot < journal_slots
    → length (details s) < 2 ^ 32
    → expected s ≡ length (details s)
unfolding expected details
expected-details s h small =
    let seq = add32 (sub32 s.ring_seq s.ring_count) 1 in
    let ring = ring_details seq (ring_get_ordered s) in
    omega (
      arith,
      count_slots-total s 0 journal_slots,
      turned-total s s.next_slot refl h,
      length-slot_details s 0 journal_slots,
      length-ring_details seq (ring_get_ordered s),
      length-ring_get_ordered s,
      length-append (slot_details s 0 journal_slots) ring,
    )

attempts_none : (a : List ℤ) → a ≡ [] → attempts 40 a ≡ (pos 0, [])
unfolding attempts
attempts_none [] e = refl
attempts_none (x ∷ xs) e = absurd cc

-- With no answer to come but 0, a line is sent at once.
taken_cases :
    (line : Line) (d : Dump)
    → d.answers ≡ []
    → let (d', ok) = dump_send line d in
      (ok ≡ true) × (d'.answers ≡ []) × (d'.ordinal ≡ d.ordinal) × (d'.sent ≡ d.sent ++ line ∷ [])
unfolding dump_send
taken_cases line d h = rw (attempts_none d.answers h) (refl, refl, refl, refl)

module _ (line_len : Line → ℕ) (detail_len : Detail → ℕ) where
  -- No line is too long for its buffer, and neither is the part of a line.
  pub record AreShort : Type 0 where
    pub lines : (l : Line) → line_len l < 120
    pub parts : (x : Detail) → detail_len x < 90

  module _ (short : AreShort) where
    detail_taken :
        (id : ℕ) (x : Detail) (d : Dump)
        → d.answers ≡ []
        → let (d', ok) = dump_detail line_len detail_len id x d in (ok ≡ true) × (d'.answers ≡ [])
    unfolding dump_detail dump_data
    detail_taken id x d h = ground (
      arith,
      taken_cases (data_line id d.ordinal x) d h,
      short.lines (data_line id d.ordinal x),
      short.parts x,
    )

    details_taken :
        (id : ℕ) (xs : List Detail) (d : Dump)
        → d.answers ≡ []
        → let (d', ok) = send_details line_len detail_len id xs d in (ok ≡ true) × (d'.answers ≡ [])
    unfolding send_details
    details_taken id [] d h = (refl, h)
    details_taken id (x ∷ xs) d h =
        let one = detail_taken id x d h in
        rw one.0 (details_taken id xs (dump_detail line_len detail_len id x d).0 one.1)

    finish_taken :
        (id : ℕ) (s : Log) (r : Dump × Bool)
        → r.1 ≡ true
        → r.0.answers ≡ []
        → r.0.ordinal ≡ expected s
        → (finish line_len detail_len id s r).sent ≡ r.0.sent ++ end_line id r.0.ordinal ∷ []
    unfolding finish
    finish_taken id s (d, false) ok a n = absurd cc
    finish_taken id s (d, true) ok a n =
        ground (arith, taken_cases (end_line id d.ordinal) d a, short.lines (end_line id d.ordinal))

    body_taken :
        (id : ℕ) (s : Log) (d d1 : Dump)
        → s.next_slot < journal_slots
        → length (details s) < 2 ^ 32
        → d1.answers ≡ []
        → d1.ordinal ≡ 0
        → d1.sent ≡ d.sent ++ begin_of line_len detail_len id s ∷ []
        → (finish line_len detail_len id s (dump_body line_len detail_len id s d1)).sent
          ≡ d.sent
            ++ (begin_of line_len detail_len id s
                ∷ (data_lines id 0 (details s) ++ end_line id (length (details s)) ∷ []))
    body_taken id s d d1 h small a o begun =
        let r = send_details line_len detail_len id (details s) d1 in
        let p = send-Progress line_len detail_len id (details s) d1 in
        let taken = details_taken id (details s) d1 a in
        let body : dump_body line_len detail_len id s d1 ≡ r =
          body-send line_len detail_len id s d1 in
        let number : r.0.ordinal ≡ length (details s) = omega (arith, p.numbered taken.0, o) in
        let last = end_line id (length (details s)) ∷ [] in
        let lines = p.all_new taken.0 ∙ ap (λ n. data_lines id n (details s)) o in
        let before =
          p.added
          ∙ ap (λ l. l ++ p.new) begun
          ∙ append_assoc d.sent (begin_of line_len detail_len id s ∷ []) p.new in
        rw body (
          finish_taken id s r taken.0 taken.1 (number ∙ sym (expected-details s h small))
          ∙ ap (λ n. r.0.sent ++ end_line id n ∷ []) number
          ∙ close_lines d.sent p.new (data_lines id 0 (details s)) last r.0.sent
              (begin_of line_len detail_len id s) before lines)

    -- When no line is too long and every line is taken at once, a dump of a log whose next slot is one
    -- of the slots is complete: it announces the number of its lines, sends the whole journal, from
    -- the oldest block to the newest event of the ring, with consecutive ordinals, and ends with the
    -- end marker and that number.
    pub dump_journal-details :
        (id : ℕ) (s : Log) (d : Dump)
        → s.next_slot < journal_slots
        → length (details s) < 2 ^ 32
        → d.answers ≡ []
        → d.ordinal ≡ 0
        → (dump_journal line_len detail_len id s d).sent
          ≡ d.sent
            ++ (begin_of line_len detail_len id s
                ∷ (data_lines id 0 (details s) ++ end_line id (length (details s)) ∷ []))
    unfolding dump_journal finish
    dump_journal-details id s d h small a o =
        let line = begin_of line_len detail_len id s in
        let sent = taken_cases line d a in
        let fits : leb 120 (line_len line) ≡ false = ground (arith, short.lines line) in
        rw fits
          (rw sent.0 (body_taken id s d (dump_send line d).0 h small sent.1 (sent.2 ∙ o) sent.3))
