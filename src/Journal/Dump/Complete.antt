-- ===== src/Journal/Dump/Complete.antt =====
-- A dump that ends with its end marker holds the whole journal.
use totem_zmk_config.Prelude.{
  subst, ℕ, zero, suc, ◌+◌, ◌%◌, ◌≡◌, refl, ap, sym, ◌∙◌, arith, Bool, true, false, ◌&&◌, not, List,
  [], ◌∷◌, ◌++◌, length, get_or, ◌⊎◌, inl, inr, Bool-cases, append_assoc, append-nil, leb, ◌==◌,
  if◌then◌else◌, All,
}
use totem_zmk_config.Config.{journal_slots}
use totem_zmk_config.Event.{Event, zero_event}
use totem_zmk_config.Journal.{Log, ring_get_ordered}
use totem_zmk_config.Journal.Layout.{Block, zero_block}
use totem_zmk_config.Journal.Persist.{add32, sub32}
use totem_zmk_config.Journal.Dump.{
  Detail, block_detail, event_detail, Line, boot_line, fault_line, begin_line, data_line, end_line,
  Dump, dump_send, dump_data, dump_detail, dump_stored, dump_block, dump_slots, dump_ring,
  dump_body, count_slots, expected, dump_journal,
}

-- What a dump should hold: the stored blocks from the oldest slot on, then the ring.
unfoldable pub stored_details : ℕ → Block → ℕ → ℕ → List Detail
stored_details slot block i zero = []
stored_details slot block i (suc k) =
    event_detail true slot (add32 block.first_event_seq i) (get_or block.ev i zero_event)
    ∷ stored_details slot block (i + 1) k

unfoldable pub block_details : ℕ → Block → List Detail
block_details slot block =
    block_detail slot block.journal_seq block.first_event_seq block.count
    ∷ stored_details slot block 0 block.count

unfoldable pub slot_details : Log → ℕ → ℕ → List Detail
slot_details s off zero = []
slot_details s off (suc k) =
    let slot = (s.next_slot + off) % journal_slots in
    (if get_or s.restored_valid slot false
      then block_details slot (get_or s.restored_blocks slot zero_block)
      else [])
    ++ slot_details s (off + 1) k

unfoldable pub ring_details : ℕ → List Event → List Detail
ring_details seq [] = []
ring_details seq (e ∷ es) = event_detail false 0 seq e ∷ ring_details (add32 seq 1) es

unfoldable pub details : Log → List Detail
details s =
    slot_details s 0 journal_slots
    ++ ring_details (add32 (sub32 s.ring_seq s.ring_count) 1) (ring_get_ordered s)

-- Their lines, with consecutive ordinals.
unfoldable pub data_lines : ℕ → ℕ → List Detail → List Line
data_lines id n [] = []
data_lines id n (x ∷ xs) = data_line id n x ∷ data_lines id (n + 1) xs

abbrev pub is_end : Line → Bool
is_end (end_line id n) = true
is_end (boot_line p) = false
is_end (fault_line b) = false
is_end (begin_line a b c d e f) = false
is_end (data_line id n x) = false

pub close_lines :
    (pre new all last x : List Line) (b : Line)
    → x ≡ pre ++ b ∷ new
    → new ≡ all
    → x ++ last ≡ pre ++ (b ∷ (all ++ last))
close_lines pre new all last x b e f =
    subst (λ l. x ++ last ≡ pre ++ (b ∷ (l ++ last))) f
      (ap (λ l. l ++ last) e ∙ append_assoc pre (b ∷ new) last)

module _ (line_len : Line → ℕ) (detail_len : Detail → ℕ) where
  -- One loop over all of them.
  unfoldable pub send_details : ℕ → List Detail → Dump → Dump × Bool
  send_details id [] d = (d, true)
  send_details id (x ∷ xs) d =
      let (d', ok) = dump_detail line_len detail_len id x d in
      let rest = send_details id xs d' in if ok then rest else (d', false)

  then_send : ℕ → List Detail → Dump × Bool → Dump × Bool
  then_send id ys (d, ok) = if ok then send_details id ys d else (d, false)

  send-append :
      (id : ℕ) (xs ys : List Detail) (d : Dump)
      → send_details id (xs ++ ys) d ≡ then_send id ys (send_details id xs d)
  unfolding send_details then_send
  send-append id [] ys d = refl
  send-append id (x ∷ xs) ys d =
      let one = dump_detail line_len detail_len id x d in
      elim (Bool-cases one.1) [ inl e ↦ rw e (send-append id xs ys one.0) | inr e ↦ rw e refl ]

  stored-send :
      (id slot : ℕ) (block : Block) (i k : ℕ) (d : Dump)
      → dump_stored line_len detail_len id slot block i k d
        ≡ send_details id (stored_details slot block i k) d
  unfolding dump_stored send_details stored_details
  stored-send id slot block i zero d = refl
  stored-send id slot block i (suc k) d =
      let one =
        dump_detail line_len detail_len id
          (event_detail true slot (add32 block.first_event_seq i) (get_or block.ev i zero_event))
          d in
      ap (λ r. if one.1 then r else (one.0, false)) (stored-send id slot block (i + 1) k one.0)

  block-send :
      (id slot : ℕ) (block : Block) (d : Dump)
      → dump_block line_len detail_len id slot block d
        ≡ send_details id (block_details slot block) d
  unfolding dump_block send_details block_details
  block-send id slot block d =
      let one =
        dump_detail line_len detail_len id
          (block_detail slot block.journal_seq block.first_event_seq block.count) d in
      ap (λ r. if one.1 then r else (one.0, false)) (stored-send id slot block 0 block.count one.0)

  ring-send :
      (id seq : ℕ) (es : List Event) (d : Dump)
      → dump_ring line_len detail_len id seq es d ≡ send_details id (ring_details seq es) d
  unfolding dump_ring send_details ring_details
  ring-send id seq [] d = refl
  ring-send id seq (e ∷ es) d =
      let one = dump_detail line_len detail_len id (event_detail false 0 seq e) d in
      ap (λ r. if one.1 then r else (one.0, false)) (ring-send id (add32 seq 1) es one.0)

  slots-send :
      (id : ℕ) (s : Log) (off k : ℕ) (d : Dump)
      → dump_slots line_len detail_len id s off k d ≡ send_details id (slot_details s off k) d
  unfolding dump_slots send_details slot_details then_send
  slots-send id s off zero d = refl
  slots-send id s off (suc k) d =
      let slot = (s.next_slot + off) % journal_slots in
      let block = get_or s.restored_blocks slot zero_block in
      elim (Bool-cases (get_or s.restored_valid slot false)) [
        | inl e ↦
            let one = dump_block line_len detail_len id slot block d in
            rw e (
              ap (λ r. if one.1 then r else (one.0, false)) (slots-send id s (off + 1) k one.0)
              ∙ ap (then_send id (slot_details s (off + 1) k)) (block-send id slot block d)
              ∙ sym (send-append id (block_details slot block) (slot_details s (off + 1) k) d))
        | inr e ↦ rw e (slots-send id s (off + 1) k d)
      ]

  pub body-send :
      (id : ℕ) (s : Log) (d : Dump)
      → dump_body line_len detail_len id s d ≡ send_details id (details s) d
  unfolding dump_body details then_send
  body-send id s d =
      let seq = add32 (sub32 s.ring_seq s.ring_count) 1 in
      let one = dump_slots line_len detail_len id s 0 journal_slots d in
      ap (λ r. if one.1 then r else (one.0, false)) (ring-send id seq (ring_get_ordered s) one.0)
      ∙ ap (then_send id (ring_details seq (ring_get_ordered s)))
          (slots-send id s 0 journal_slots d)
      ∙ sym (
          send-append id (slot_details s 0 journal_slots) (ring_details seq (ring_get_ordered s)) d)

  -- What sending details adds: lines without an end marker, and all of them with consecutive
  -- ordinals if the flag is set.
  pub record Progress (id : ℕ) (xs : List Detail) (d : Dump) (r : Dump × Bool) : Type 0 where
    pub new : List Line
    pub added : r.0.sent ≡ d.sent ++ new
    pub no_end : All (λ l. is_end l ≡ false) new
    pub all_new : r.1 ≡ true → new ≡ data_lines id d.ordinal xs
    pub numbered : r.1 ≡ true → r.0.ordinal ≡ d.ordinal + length xs

  detail_cases :
      (id : ℕ) (x : Detail) (d : Dump)
      → let (d', ok) = dump_detail line_len detail_len id x d in
        ((ok ≡ false) × (d'.sent ≡ d.sent) × (d'.ordinal ≡ d.ordinal))
        ⊎ ((ok ≡ true)
            × (d'.sent ≡ d.sent ++ data_line id d.ordinal x ∷ [])
            × (d'.ordinal ≡ d.ordinal + 1))
  unfolding dump_detail dump_data dump_send
  detail_cases id x d = ground arith

  pub send-Progress :
      (id : ℕ) (xs : List Detail) (d : Dump) → Progress id xs d (send_details id xs d)
  unfolding send_details data_lines
  send-Progress id [] d = record {
    new = [];
    added = sym (append-nil d.sent);
    no_end = tt;
    all_new = λ _. refl;
    numbered = λ _. omega arith;
  }
  send-Progress id (x ∷ xs) d =
      let one = dump_detail line_len detail_len id x d in
      elim (detail_cases id x d) [
        | inl (failed, same, number) ↦ rw failed (record {
          new = [];
          added = same ∙ sym (append-nil d.sent);
          no_end = tt;
          all_new = λ h. absurd cc;
          numbered = λ h. absurd cc;
        })
        | inr (sent, line, number) ↦
            let rest = send-Progress id xs one.0 in
            rw sent (record {
              new = data_line id d.ordinal x ∷ rest.new;
              added =
                  rest.added
                  ∙ ap (λ l. l ++ rest.new) line
                  ∙ append_assoc d.sent (data_line id d.ordinal x ∷ []) rest.new;
              no_end = (refl, rest.no_end);
              all_new = λ h.
                  ap (λ l. data_line id d.ordinal x ∷ l)
                    (rest.all_new h ∙ ap (λ n. data_lines id n xs) number);
              numbered = λ h. omega (arith, rest.numbered h, number);
            })
      ]

  -- The lines of a dump from its `begin` line on.
  abbrev pub begin_of : ℕ → Log → Line
  begin_of id s =
      let (blocks, events) = count_slots s 0 journal_slots in
      begin_line id (expected s) blocks events s.ring_count s.ring_seq

  -- How a dump can end: without an end marker, or after the whole journal.
  abbrev pub Ends : ℕ → Log → List Line → List Line → Type 0
  Ends id s before after =
      ((new : List Line) × (after ≡ before ++ new) × All (λ l. is_end l ≡ false) new)
      ⊎ (after
          ≡ before
            ++ (begin_of id s
                ∷ (data_lines id 0 (details s) ++ end_line id (length (details s)) ∷ [])))

  send_cases :
      (line : Line) (d : Dump)
      → let (d', ok) = dump_send line d in
        (d'.ordinal ≡ d.ordinal)
        × (((ok ≡ false) × (d'.sent ≡ d.sent)) ⊎ ((ok ≡ true) × (d'.sent ≡ d.sent ++ line ∷ [])))
  unfolding dump_send
  send_cases line d = ground arith

  -- The end of the dump, from the result of the loops on.
  unfoldable pub finish : ℕ → Log → Dump × Bool → Dump
  finish id s (d, ok) =
      let last = end_line id d.ordinal in
      if not ok
      then d
      else if d.ordinal == expected s && not (leb 120 (line_len last))
      then (dump_send last d).0
      else d

  finish_cases :
      (id : ℕ) (s : Log) (r : Dump × Bool)
      → ((finish id s r).sent ≡ r.0.sent)
        ⊎ ((r.1 ≡ true) × ((finish id s r).sent ≡ r.0.sent ++ end_line id r.0.ordinal ∷ []))
  unfolding finish
  finish_cases id s (d, false) = inl refl
  finish_cases id s (d, true) = ground (arith, send_cases (end_line id d.ordinal) d)

  finish-Ends :
      (id : ℕ) (s : Log) (d d1 : Dump)
      → d1.sent ≡ d.sent ++ begin_of id s ∷ []
      → d1.ordinal ≡ 0
      → Ends id s d.sent (finish id s (dump_body line_len detail_len id s d1)).sent
  finish-Ends id s d d1 h o =
      let r = send_details id (details s) d1 in
      let p = send-Progress id (details s) d1 in
      let body : dump_body line_len detail_len id s d1 ≡ r = body-send id s d1 in
      let before =
        p.added ∙ ap (λ l. l ++ p.new) h ∙ append_assoc d.sent (begin_of id s ∷ []) p.new in
      rw body (elim (finish_cases id s r) [
        | inl same ↦ inl (begin_of id s ∷ p.new, same ∙ before, (refl, p.no_end))
        | inr (ok, ended) ↦
            let lines = p.all_new ok ∙ ap (λ n. data_lines id n (details s)) o in
            let number : r.0.ordinal ≡ length (details s) = omega (arith, p.numbered ok, o) in
            let last = end_line id (length (details s)) ∷ [] in
            inr (
              ended
              ∙ ap (λ n. r.0.sent ++ end_line id n ∷ []) number
              ∙ close_lines d.sent p.new (data_lines id 0 (details s)) last r.0.sent (begin_of id s)
                  before lines)
      ])

  -- However the sending goes, a dump either ends without an end marker, or its lines are the begin
  -- line, the whole journal from the oldest block to the newest event of the ring, with consecutive
  -- ordinals from 0, and the end marker with their number.
  pub dump_journal-Ends :
      (id : ℕ) (s : Log) (d : Dump)
      → d.ordinal ≡ 0
      → Ends id s d.sent (dump_journal line_len detail_len id s d).sent
  unfolding dump_journal finish
  dump_journal-Ends id s d o =
      let d1 = (dump_send (begin_of id s) d).0 in
      let none_new : Ends id s d.sent d.sent = inl ([], sym (append-nil d.sent), tt) in
      let cases = send_cases (begin_of id s) d in
      elim (Bool-cases (leb 120 (line_len (begin_of id s)))) [
        | inl long ↦ rw long none_new
        | inr short ↦ rw short (elim cases.1 [
          | inl (failed, same) ↦ rw (failed, same) none_new
          | inr (sent, line) ↦ rw sent (finish-Ends id s d d1 line (cases.0 ∙ o))
        ])
      ]
