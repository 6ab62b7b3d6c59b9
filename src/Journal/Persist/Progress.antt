-- ===== src/Journal/Persist/Progress.antt =====
-- Successful writes move the backlog to flash, oldest first, until nothing is pending.
use totem_zmk_config.Prelude.{
  ℕ, zero, suc, ◌+◌, ◌-◌, ◌*◌, ◌≤◌, ◌≡◌, refl, ap, sym, subst, ◌∙◌, arith, Bool-cases, inl, inr,
  true, false, ltb, List, [], ◌++◌, take, drop, min, pos, drop-drop, drop_all, length-set,
  take-append-drop, take-append_exact, length-take, ap₂, ltb→lt, ge_of_ltb,
}
use totem_zmk_config.Config.{block_events, persist_min_interval_ms}
use totem_zmk_config.Event.{Event}
use totem_zmk_config.Journal.{Log}
use totem_zmk_config.Journal.Layout.{Payload, Block, block_magic, block_version}
use totem_zmk_config.Journal.Ordered.{contents, length-contents}
use totem_zmk_config.Journal.Sequence.{IsSound, backlog, pending, length-pending}
use totem_zmk_config.Journal.Persist.Copy.{
  Written, first_new_lem, payload-Written, pending_of_write,
}
use totem_zmk_config.Journal.Persist.{
  Begin, nothing_new, writing, persist_begin, persist_finish, first_new, rate_limited, new_block,
  new_payload, add32, sub32, block_count,
}

abbrev Writes : Log → Begin → Type 0
Writes s (writing s' block last) = Written s s' block last
Writes s _ = Unit {0}

-- A call writes only in a ready journal, outside the interval, and with something new to write.
pub record Allowed (now : ℕ) (s : Log) : Type 0 where
  pub ready : s.journal_ready ≡ true
  pub in_time : rate_limited now s ≡ false
  pub news : ltb s.ring_seq (first_new s) ≡ false

pub Allowed-of_writing :
    (crc32 : Payload → ℕ) (now : ℕ) (s : Log) {s' : Log} {block : Block} {last : ℕ}
    → persist_begin crc32 now s ≡ writing s' block last
    → Allowed now s
unfolding persist_begin
Allowed-of_writing crc32 now s h = ground arith

pub writing_of_Allowed :
    (crc32 : Payload → ℕ) (now : ℕ) (s : Log)
    → Allowed now s
    → persist_begin crc32 now s
      ≡ writing
          (record s { journal_seq = add32 s.journal_seq 1; persist_requested = false })
          (new_block crc32 s)
          (sub32 (add32 (first_new s) (block_count s)) 1)
unfolding persist_begin
writing_of_Allowed now s v = ground arith

-- The envelope of a block.
pub record Sealed (crc32 : Payload → ℕ) (block : Block) : Type 0 where
  pub magic_ok : block.magic ≡ block_magic
  pub version_ok : block.version ≡ block_version
  pub crc_ok : block.crc ≡ crc32 block.payload

abbrev Seals : (Payload → ℕ) → Begin → Type 0
Seals crc32 (writing s' block last) = Sealed crc32 block
Seals crc32 _ = Unit {0}

new_block-Sealed : (crc32 : Payload → ℕ) (s : Log) → Sealed crc32 (new_block crc32 s)
unfolding new_block new_payload
new_block-Sealed crc32 s = record { magic_ok = refl; version_ok = refl; crc_ok = refl }

pub persist_begin-Sealed :
    (crc32 : Payload → ℕ) (now : ℕ) (s : Log) {s' : Log} {block : Block} {last : ℕ}
    → persist_begin crc32 now s ≡ writing s' block last
    → Sealed crc32 block
persist_begin-Sealed crc32 now s h =
    subst (Seals crc32)
      (sym (writing_of_Allowed crc32 now s (Allowed-of_writing crc32 now s h)) ∙ h)
      (new_block-Sealed crc32 s)

abbrev Numbers : Log → Begin → Type 0
Numbers s (writing s' block last) = block.journal_seq ≡ add32 s.journal_seq 1
Numbers s _ = Unit {0}

new_block-Numbers :
    (crc32 : Payload → ℕ) (s : Log) → (new_block crc32 s).journal_seq ≡ add32 s.journal_seq 1
unfolding new_block new_payload
new_block-Numbers crc32 s = refl

pub writing-Numbers :
    (crc32 : Payload → ℕ) (now : ℕ) (s : Log) {s' : Log} {block : Block} {last : ℕ}
    → persist_begin crc32 now s ≡ writing s' block last
    → block.journal_seq ≡ add32 s.journal_seq 1
writing-Numbers crc32 now s h =
    subst (Numbers s) (sym (writing_of_Allowed crc32 now s (Allowed-of_writing crc32 now s h)) ∙ h)
      (new_block-Numbers crc32 s)

-- What `persist_begin` decides to write in a sound log is the oldest part of the backlog: a block
-- with those events, their number and their sequence numbers, for the next slot.
pub persist_begin-Written :
    (crc32 : Payload → ℕ) (now : ℕ) (s : Log) {s' : Log} {block : Block} {last : ℕ}
    → IsSound s
    → persist_begin crc32 now s ≡ writing s' block last
    → Written s s' block last
persist_begin-Written crc32 now s v h =
    let a = Allowed-of_writing crc32 now s h in
    subst (Writes s) (sym (writing_of_Allowed crc32 now s a) ∙ h)
      (payload-Written crc32 s v (pending_of_write s v a.news))

-- Which block a slot holds does not matter here.
finish-IsSound :
    (now : ℕ) (block : Block) (last : ℕ) (s s' : Log)
    → IsSound s
    → Written s s' block last
    → IsSound (persist_finish (pos 0) now block last s').0
unfolding persist_finish
finish-IsSound now block last s s' v w = rw w.after (
    grind (
      arith,
      length-set s.restored_blocks block.slot block,
      length-set s.restored_valid block.slot true,
      w.how_many,
      w.first,
      w.up_to,
      w.some_pending,
    ))

-- A successful write takes its events off the backlog.
finish_backlog :
    (now : ℕ) (block : Block) (last : ℕ) (s s' : Log)
    → IsSound s
    → Written s s' block last
    → let s'' = (persist_finish (pos 0) now block last s').0 in
      (backlog s'' ≡ backlog s - block_events)
      × (pending s'' ≡ drop (s.ring_count - (backlog s - block_events)) (contents s))
      × (s''.journal_ready ≡ s.journal_ready)
      × (s''.last_persist_uptime_ms ≡ now)
unfolding persist_finish
finish_backlog now block last s s' v w =
    let left : min s.ring_count (s.ring_seq - last) ≡ backlog s - block_events = omega arith in
    rw w.after (left, ap (λ k. drop (s.ring_count - k) (contents s)) left, refl, refl)

drop-pending :
    (s : Log)
    → drop (s.ring_count - (backlog s - block_events)) (contents s) ≡ drop block_events (pending s)
drop-pending s = elim (Bool-cases (ltb (backlog s) block_events)) [
  | inl few ↦
      drop_all (s.ring_count - (backlog s - block_events)) (contents s)
        (omega (arith, ltb→lt (backlog s) block_events few, length-contents s))
      ∙ sym (
          drop_all block_events (pending s)
            (omega (arith, ltb→lt (backlog s) block_events few, length-pending s)))
  | inr many ↦
      ap (λ k. drop k (contents s)) (omega (arith, ge_of_ltb (backlog s) block_events many))
      ∙ sym (drop-drop (s.ring_count - backlog s) block_events (contents s))
]

-- When the write of a block that holds the oldest part of a sound log's backlog succeeds, the events
-- of one block come off the front of the backlog; those that stay pending are the later ones, in
-- order.
pub finish-pending :
    (now : ℕ) (block : Block) (last : ℕ) (s s' : Log)
    → IsSound s
    → Written s s' block last
    → pending (persist_finish (pos 0) now block last s').0 ≡ drop block_events (pending s)
finish-pending now block last s s' v w = (finish_backlog now block last s s' v w).1 ∙ drop-pending s

-- What one block adds to the journal.
abbrev pub events_of : Block → List Event
events_of block = take block.count block.ev

events_of-Written :
    (s : Log) {s' : Log} {block : Block} {last : ℕ}
    → Written s s' block last
    → events_of block ≡ take block_events (pending s)
events_of-Written s w = rw w.oldest_first (
    take-append_exact _ (take block_events (pending s)) _
      (omega (arith, length-take block_events (pending s), length-pending s, w.how_many)))

module _ (crc32 : Payload → ℕ) where
  -- The blocks of calls that come as early as they may and whose writes succeed, with the events
  -- of each.
  pub drain : ℕ → ℕ → Log → List Event
  drain zero now s = []
  drain (suc k) now s = elim (persist_begin crc32 now s) [
    | writing s' block last ↦
        events_of block
        ++ drain k (now + persist_min_interval_ms) (persist_finish (pos 0) now block last s').0
    | _ ↦ []
  ]

  no_backlog : (s : Log) → backlog s ≡ 0 → pending s ≡ []
  no_backlog s h =
      drop_all (s.ring_count - backlog s) (contents s) (omega (arith, length-contents s))

  begin_clean :
      (now : ℕ) (s : Log)
      → s.journal_ready ≡ true
      → rate_limited now s ≡ false
      → ltb s.ring_seq (first_new s) ≡ true
      → persist_begin crc32 now s ≡ nothing_new (record s { persist_requested = false })
  unfolding persist_begin
  begin_clean now s r t h = ground arith

  -- One round of `drain` that writes.
  drain_round :
      (k now : ℕ) (s : Log)
      → IsSound s
      → Allowed now s
      → ((s'' : Log)
          → IsSound s''
          → s''.journal_ready ≡ true
          → s''.last_persist_uptime_ms ≡ now
          → backlog s'' ≡ backlog s - block_events
          → drain k (now + persist_min_interval_ms) s'' ≡ pending s'')
      → drain (suc k) now s ≡ pending s
  unfolding drain
  drain_round k now s v a rest =
      let e = writing_of_Allowed crc32 now s a in
      let w = payload-Written crc32 s v (pending_of_write s v a.news) in
      let (left, _, ready, time) = finish_backlog now _ _ s _ v w in
      rw (e, drain)
        (ap₂ ◌++◌ (events_of-Written s w) (
            rest _ (finish-IsSound now _ _ s _ v w) (ready ∙ a.ready) time left
            ∙ finish-pending now _ _ s _ v w)
          ∙ take-append-drop block_events (pending s))

  -- In a sound and ready log, when the interval since the last write is over, enough successful
  -- writes bring every pending event to flash, once and in order: `k` blocks hold all of a backlog
  -- of at most `k * block_events` events.
  pub drain_all :
      (k now : ℕ) (s : Log)
      → IsSound s
      → s.journal_ready ≡ true
      → s.last_persist_uptime_ms + persist_min_interval_ms ≤ now
      → backlog s ≤ k * block_events
      → drain k now s ≡ pending s
  unfolding drain
  drain_all zero now s v r t h = sym (no_backlog s (omega arith))
  drain_all (suc k) now s v r t h = elim (Bool-cases (ltb s.ring_seq (first_new s))) [
    | inl clean ↦
        rw (begin_clean now s r (ground arith) clean, drain)
          (sym (no_backlog s (omega (arith, first_new_lem s v, ltb→lt _ _ clean))))
    | inr news ↦
        drain_round k now s v (record { ready = r; in_time = ground arith; news = news })
          (λ s'' v' r' t' h'.
            drain_all k (now + persist_min_interval_ms) s'' v' r' (omega arith) (omega arith))
  ]
