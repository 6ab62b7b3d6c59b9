-- ===== src/Journal/Reboot/Recovery.antt =====
-- After any history of resets, the blocks in flash give back where the log was.
use totem_zmk_config.Prelude.{
  ℕ, ◌+◌, ◌^◌, ◌≤◌, ◌<◌, ◌≡◌, refl, ap, ◌∙◌, arith, false, inl, List, [], ◌∷◌, length,
  length-replicate,
}
use totem_zmk_config.Config.{journal_slots, ring_cap}
use totem_zmk_config.Event.{zero_event}
use totem_zmk_config.Journal.{Log, initial}
use totem_zmk_config.Journal.Layout.{Payload, zero_block}
use totem_zmk_config.Journal.Sequence.{IsSound}
use totem_zmk_config.Journal.Record.{Call, record_all}
use totem_zmk_config.Journal.Restore.{resume}
use totem_zmk_config.Journal.Restore.Resume.{IsLoading, resume-IsSound, resume_numbers}
use totem_zmk_config.Journal.Reboot.{
  Flash, Op, recording, saving, reset, cost, total, load, step, run, fresh,
}
use totem_zmk_config.Journal.Reboot.Load.{load-Kept}
use totem_zmk_config.Journal.Reboot.Saving.{Good}
use totem_zmk_config.Journal.Reboot.Steps.{
  Recorded, record_all-Recorded, Stepped, recording-Stepped,
}
use totem_zmk_config.Journal.Reboot.Calls.{saving-Stepped}
use totem_zmk_config.Journal.Reboot.Order.{SameBlocks, IsBlank, InSync-SameBlocks, load-Restores}

pub initial-IsSound : IsSound initial
initial-IsSound = record {
  wf = record {
    storage = length-replicate ring_cap zero_event;
    head_in = omega arith;
    count_in = omega arith;
  };
  counted = omega arith;
  seq_small = omega arith;
  behind = omega arith;
  slot_in = omega arith;
  blocks = length-replicate journal_slots zero_block;
  flags = length-replicate journal_slots false;
}

pub resume_same :
    (s : Log)
    → ((resume s).journal_seq ≡ s.journal_seq)
      × ((resume s).next_slot ≡ s.next_slot)
      × ((resume s).persisted_event_seq ≡ s.persisted_event_seq)
unfolding resume
resume_same s = ground arith

module _ (crc32 : Payload → ℕ) where
  -- The log after a reset, before the blocks are read.
  pub blank :
      (cs : List Call)
      → 1 + length cs < 2 ^ 32
      → Recorded initial (length cs) (record_all cs initial) × IsBlank crc32 (record_all cs initial)
  blank cs h =
      let r = record_all-Recorded cs initial initial-IsSound (omega arith) in
      (r, record { seq = r.seq; next = r.next; saved = r.saved })

  -- Reading the blocks leaves a log that can go on.
  pub loaded-IsLoading :
      (cs : List Call) (s : Log) (f : Flash)
      → Good crc32 s f
      → s.ring_seq + length cs + 8 < 2 ^ 32
      → IsLoading (load crc32 f (record_all cs initial))
  loaded-IsLoading cs s f g h =
      let l0 = record_all cs initial in
      let (r, z) = blank cs (omega arith) in
      let k = load-Kept crc32 f l0 g.1.stored in
      let w = load-Restores crc32 f s.journal_seq s.next_slot s.persisted_event_seq l0 g.1 z in
      record {
        wf = record {
          storage = ap length k.ring ∙ r.sound.wf.storage;
          head_in = omega (arith, k.head, r.sound.wf.head_in);
          count_in = omega (arith, k.count, r.sound.wf.count_in);
        };
        not_ready = k.ready ∙ r.ready;
        room = omega (arith, w.saved_is, g.0.behind, k.count, r.sound.counted, r.ring);
        slot_in = omega (arith, w.next_is, g.0.slot_in);
        blocks = k.blocks ∙ r.sound.blocks;
        flags = k.flags ∙ r.sound.flags;
      }

  reset-Stepped :
      (cs : List Call) (s : Log) (f : Flash)
      → Good crc32 s f
      → s.ring_seq + length cs + 8 < 2 ^ 32
      → Stepped crc32 s (length cs) (resume (load crc32 f (record_all cs initial))) f
  reset-Stepped cs s f g h =
      let l0 = record_all cs initial in
      let l = load crc32 f l0 in
      let (r, z) = blank cs (omega arith) in
      let k = load-Kept crc32 f l0 g.1.stored in
      let w = load-Restores crc32 f s.journal_seq s.next_slot s.persisted_event_seq l0 g.1 z in
      let i = loaded-IsLoading cs s f g h in
      let same = resume_same l in
      record {
        good = (resume-IsSound l i, rw (same.0, same.1, same.2) w.sync);
        ring = omega (
          arith,
          (resume_numbers l i).0,
          w.saved_is,
          g.0.behind,
          k.count,
          r.sound.counted,
          r.ring,
        );
        seq = omega (arith, same.0, w.seq_in);
      }

  pub step-Stepped :
      (op : Op) (s : Log) (f : Flash)
      → Good crc32 s f
      → s.ring_seq + cost op + 8 < 2 ^ 32
      → s.journal_seq + 1 < 2 ^ 32
      → Stepped crc32 s (cost op) (step crc32 op (s, f)).0 (step crc32 op (s, f)).1
  unfolding step
  step-Stepped (recording cs) s f g h j = recording-Stepped crc32 cs s f g (omega arith)
  step-Stepped (saving env b cs) s f g h j = saving-Stepped crc32 env b cs s f g (omega arith) j
  step-Stepped (reset cs) s f g h j = reset-Stepped cs s f g h

  pub run-Good :
      (ops : List Op) (s : Log) (f : Flash)
      → Good crc32 s f
      → s.ring_seq + total ops + 8 < 2 ^ 32
      → s.journal_seq + length ops < 2 ^ 32
      → Good crc32 (run crc32 ops (s, f)).0 (run crc32 ops (s, f)).1
  unfolding run
  run-Good [] s f g h j = g
  run-Good (op ∷ ops) s f g h j =
      let st = step-Stepped op s f g (omega arith) (omega arith) in
      let (t, f') = step crc32 op (s, f) in
      run-Good ops t f' st.good (omega (arith, st.ring)) (omega (arith, st.seq))

  pub fresh-Good : Good crc32 fresh.0 fresh.1
  unfolding resume
  fresh-Good = (
    ground (arith, initial-IsSound),
    record { stored = tt; within = tt; newest = inl (refl, refl, refl) },
  )

  -- A keyboard starts with an empty flash. Events are recorded, `persist` runs, with writes that
  -- succeed or fail and events that arrive meanwhile, and resets happen, in any order, while the
  -- 32-bit numbers last. After one more reset, the stored blocks, read back in any order, give the
  -- journal the number of the last event that counted as saved and the next slot as they were
  -- before; the number of the last block is at most what it was.
  pub load-run :
      (ops : List Op) (cs : List Call) (g : Flash)
      → total ops + 8 < 2 ^ 32
      → length ops < 2 ^ 32
      → 1 + length cs < 2 ^ 32
      → SameBlocks g (run crc32 ops fresh).1
      → let s = (run crc32 ops fresh).0 in
        let t = load crc32 g (record_all cs initial) in
        (t.persisted_event_seq ≡ s.persisted_event_seq)
        × (t.next_slot ≡ s.next_slot)
        × (t.journal_seq ≤ s.journal_seq)
  load-run ops cs g h j k o =
      let (s, f) = run crc32 ops fresh in
      let good = run-Good ops fresh.0 fresh.1 fresh-Good fresh_ring fresh_seq in
      let y =
        InSync-SameBlocks crc32 f g s.journal_seq s.next_slot s.persisted_event_seq o good.1 in
      let w =
        load-Restores crc32 g s.journal_seq s.next_slot s.persisted_event_seq
          (record_all cs initial) y (blank cs k).1 in
      (w.saved_is, w.next_is, w.seq_in)
    where
      fresh_ring : fresh.0.ring_seq + total ops + 8 < 2 ^ 32
      fresh_ring = unfold resume in ground (arith, h)

      fresh_seq : fresh.0.journal_seq + length ops < 2 ^ 32
      fresh_seq = unfold resume in ground (arith, j)
