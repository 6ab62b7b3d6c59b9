-- ===== src/Journal/Reboot/Steps.antt =====
-- Each operation between two resets keeps flash and the log in step.
use totem_zmk_config.Prelude.{
  ℕ, ◌+◌, ◌^◌, ◌≤◌, ◌<◌, ◌≡◌, refl, ap, sym, ◌∙◌, arith, subst, Bool, false, List, [], ◌∷◌, length,
}
use totem_zmk_config.Event.{Event}
use totem_zmk_config.Journal.{Log, record_event}
use totem_zmk_config.Journal.Layout.{Block, Payload}
use totem_zmk_config.Journal.Sequence.{IsSound}
use totem_zmk_config.Journal.Record.{Call, record_all}
use totem_zmk_config.Journal.Pending.{record_event-IsSound}
use totem_zmk_config.Journal.Persist.{nothing_new, writing, persist_begin, add32}
use totem_zmk_config.Journal.Persist.Progress.{
  persist_begin-Written, persist_begin-Sealed, writing-Numbers,
}
use totem_zmk_config.Journal.Restore.{last_seq}
use totem_zmk_config.Journal.Restore.Accept.{Written-is_valid, Written-last_seq}
use totem_zmk_config.Journal.Reboot.{Flash}
use totem_zmk_config.Journal.Reboot.Load.{IsStored}
use totem_zmk_config.Journal.Reboot.Saving.{Good, Good-touch}

-- What recording changes of the numbers.
pub record Recorded (s : Log) (n : ℕ) (t : Log) : Type 0 where
  pub sound : IsSound t
  pub ring : t.ring_seq ≡ s.ring_seq + n
  pub seq : t.journal_seq ≡ s.journal_seq
  pub next : t.next_slot ≡ s.next_slot
  pub saved : t.persisted_event_seq ≡ s.persisted_event_seq
  pub ready : t.journal_ready ≡ s.journal_ready

record_event_numbers :
    (e : Event) (p : Bool) (now : ℕ) (s : Log)
    → let t = (record_event e p now s).0 in
      (t.journal_seq ≡ s.journal_seq)
      × (t.next_slot ≡ s.next_slot)
      × (t.persisted_event_seq ≡ s.persisted_event_seq)
      × (t.journal_ready ≡ s.journal_ready)
unfolding record_event
record_event_numbers e p now s = ground arith

pub record_all-Recorded :
    (cs : List Call) (s : Log)
    → IsSound s
    → s.ring_seq + 1 + length cs < 2 ^ 32
    → Recorded s (length cs) (record_all cs s)
unfolding record_all
record_all-Recorded [] s v h = record {
  sound = v;
  ring = omega arith;
  seq = refl;
  next = refl;
  saved = refl;
  ready = refl;
}
record_all-Recorded ((e, p, now) ∷ cs) s v h =
    let (v', n) = record_event-IsSound e p now s (omega arith) v in
    let same = record_event_numbers e p now s in
    let r = record_all-Recorded cs (record_event e p now s).0 v' (omega arith) in
    record {
      sound = r.sound;
      ring = omega (arith, r.ring);
      seq = r.seq ∙ same.0;
      next = r.next ∙ same.1;
      saved = r.saved ∙ same.2;
      ready = r.ready ∙ same.3;
    }

module _ (crc32 : Payload → ℕ) where
  -- What an operation with `n` events keeps.
  pub record Stepped (s : Log) (n : ℕ) (t : Log) (f : Flash) : Type 0 where
    pub good : Good crc32 t f
    pub ring : t.ring_seq ≤ s.ring_seq + n
    pub seq : t.journal_seq ≤ s.journal_seq + 1

  pub recording-Stepped :
      (cs : List Call) (s : Log) (f : Flash)
      → Good crc32 s f
      → s.ring_seq + 1 + length cs < 2 ^ 32
      → Stepped s (length cs) (record_all cs s) f
  recording-Stepped cs s f g h =
      let r = record_all-Recorded cs s g.0 h in
      record {
        good = (r.sound, rw (r.seq, r.next, r.saved) g.1);
        ring = omega (arith, r.ring);
        seq = omega (arith, r.seq);
      }

  pub touched-Stepped :
      (s : Log) (n : ℕ) (f : Flash) (q : Bool)
      → Good crc32 s f
      → Stepped s n (record s { persist_requested = q }) f
  touched-Stepped s n f q g = record {
    good = Good-touch crc32 s f q g;
    ring = omega arith;
    seq = omega arith;
  }

  pub nothing_new_lem :
      (now : ℕ) (s s' : Log)
      → persist_begin crc32 now s ≡ nothing_new s'
      → s' ≡ record s { persist_requested = false }
  unfolding persist_begin
  nothing_new_lem now s s' h = ground arith

  -- A block on its way to flash, and the log once the write is over.
  pub record Flying (s : Log) (n : ℕ) (block : Block) (last : ℕ) (t : Log) : Type 0 where
    pub sound : IsSound t
    pub ring : t.ring_seq ≡ s.ring_seq + n
    pub seq : t.journal_seq ≡ s.journal_seq + 1
    pub next : t.next_slot ≡ s.next_slot
    pub saved : t.persisted_event_seq ≡ s.persisted_event_seq
    pub stored : IsStored crc32 block
    pub number : block.journal_seq ≡ s.journal_seq + 1
    pub last_is : last_seq block ≡ last
    pub news : s.persisted_event_seq < last
    pub in_ring : last ≤ t.ring_seq

  begin-IsSound :
      (s : Log) (j : ℕ)
      → IsSound s
      → IsSound (record s { journal_seq = j; persist_requested = false })
  begin-IsSound s j v = ground arith

  pub writing-Flying :
      (now : ℕ) (cs : List Call) (s : Log) {s' : Log} {block : Block} {last : ℕ}
      → IsSound s
      → s.ring_seq + 1 + length cs < 2 ^ 32
      → s.journal_seq + 1 < 2 ^ 32
      → persist_begin crc32 now s ≡ writing s' block last
      → Flying s (length cs) block last (record_all cs s')
  writing-Flying now cs s {s'} {block} {last} v h j e =
      let w = persist_begin-Written crc32 now s v e in
      let sound : IsSound s' =
        subst IsSound (sym w.after) (begin-IsSound s (add32 s.journal_seq 1) v) in
      let ring : s'.ring_seq ≡ s.ring_seq = ap (λ x. x.ring_seq) w.after in
      let r = record_all-Recorded cs s' sound (omega arith) in
      let last_is = Written-last_seq crc32 s s' block last v w in
      record {
        sound = r.sound;
        ring = r.ring ∙ ap (λ x. x + length cs) ring;
        seq = r.seq ∙ ap (λ x. x.journal_seq) w.after ∙ omega arith;
        next = r.next ∙ ap (λ x. x.next_slot) w.after;
        saved = r.saved ∙ ap (λ x. x.persisted_event_seq) w.after;
        stored = record {
          slot_in = omega (arith, w.where_to);
          valid = Written-is_valid crc32 s s' block last w (persist_begin-Sealed crc32 now s e);
        };
        number = writing-Numbers crc32 now s e ∙ omega arith;
        last_is = last_is;
        news = omega (arith, w.first, w.up_to, w.how_many, w.some_pending);
        in_ring = omega (arith, w.first, w.up_to, w.how_many, w.some_pending, r.ring, ring);
      }
