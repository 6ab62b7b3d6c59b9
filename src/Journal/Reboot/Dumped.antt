-- ===== src/Journal/Reboot/Dumped.antt =====
-- What a dump shows after a reset.
use mathlib.Core.List.{Memᴰ, reverse}
use totem_zmk_config.Prelude.{
  ℕ, ◌+◌, ◌^◌, ◌≤◌, ◌<◌, ◌≡◌, ◌≢◌, refl, ap, ap₂, sym, ◌∙◌, arith, Bool, false, List, [], ◌∷◌, ◌++◌,
  length, take, length-take, get_or, get_or-replicate, All, All-map, take-take,
}
use totem_zmk_config.Config.{journal_slots}
use totem_zmk_config.Event.{Event}
use totem_zmk_config.Journal.{Log, initial, record_event, ring_get_ordered}
use totem_zmk_config.Journal.Layout.{Payload}
use totem_zmk_config.Journal.Ordered.{contents, ordered-contents}
use totem_zmk_config.Journal.Record.{Call, record_all, events, latest, ring_get_ordered-record_all}
use totem_zmk_config.Journal.Dump.Complete.{ring_details, details}
use totem_zmk_config.Journal.Persist.{add32, sub32}
use totem_zmk_config.Journal.Restore.{resume}
use totem_zmk_config.Journal.Restore.Resume.{resume_numbers, contents-resume}
use totem_zmk_config.Journal.Reboot.{Flash, Op, total, load, step, run, fresh}
use totem_zmk_config.Journal.Reboot.Load.{IsStored, Kept, load-Kept}
use totem_zmk_config.Journal.Reboot.Saving.{Good}
use totem_zmk_config.Journal.Reboot.Order.{
  SameBlocks, all_at, spread, InSync-SameBlocks, load-Restores,
}
use totem_zmk_config.Journal.Reboot.Recovery.{
  initial-IsSound, blank, loaded-IsLoading, resume_same, step-Stepped, run-Good, fresh-Good,
}
use totem_zmk_config.Journal.Reboot.Rotation.{Turns, one_in_slot}
use totem_zmk_config.Journal.Reboot.Shown.{
  Shows, load-Holds, load_empty, all_details, Shows-details,
}
use totem_zmk_config.Journal.Reboot.History.{Latest, written, run-Latest}

record_event_flags :
    (e : Event) (p : Bool) (now : ℕ) (s : Log)
    → (record_event e p now s).0.restored_valid ≡ s.restored_valid
unfolding record_event
record_event_flags e p now s = ground arith

record_all_flags : (cs : List Call) (s : Log) → (record_all cs s).restored_valid ≡ s.restored_valid
unfolding record_all
record_all_flags [] s = refl
record_all_flags ((e, p, now) ∷ cs) s =
    record_all_flags cs (record_event e p now s).0 ∙ record_event_flags e p now s

resume_blocks :
    (s : Log)
    → ((resume s).restored_blocks ≡ s.restored_blocks)
      × ((resume s).restored_valid ≡ s.restored_valid)
      × ((resume s).ring_count ≡ s.ring_count)
unfolding resume
resume_blocks s = ground arith

resume-Shows : (f : Flash) (s : Log) → Shows f s → Shows f (resume s)
resume-Shows f s v =
    let same = resume_blocks s in
    record {
      held = λ b m. record {
        valid = rw same.1 (v.held b m).valid;
        same = rw same.0 (v.held b m).same;
      };
      empty = λ slot h. rw same.1 (v.empty slot h);
    }

Kept-contents : (s t : Log) → Kept s t → contents t ≡ contents s
Kept-contents s t k = rw (k.ring, k.head, k.count) refl

none_recorded : ring_get_ordered initial ≡ []
unfolding ring_get_ordered
none_recorded = refl

module _ (crc32 : Payload → ℕ) where
  -- The log whose slots are read back shows the blocks, in whatever order they come.
  load-Shows :
      (f g : Flash) (next : ℕ) (cs : List Call)
      → 1 + length cs < 2 ^ 32
      → next < journal_slots
      → length f ≤ journal_slots
      → Turns next f
      → All (IsStored crc32) f
      → SameBlocks g f
      → Shows f (load crc32 g (record_all cs initial))
  load-Shows f g next cs k n l t st o =
      let l0 = record_all cs initial in
      let sound = (blank crc32 cs k).0.sound in
      let stored = spread crc32 (IsStored crc32) f g st o.all_there in
      record {
        held = λ b m.
            load-Holds crc32 b g l0 (all_at (λ c. Memᴰ c g) f o.none_lost m)
              (record { blocks = sound.blocks; flags = sound.flags }) stored
              (All-map (λ c. Memᴰ c f) (λ c. c.slot ≡ b.slot → c ≡ b) g
                (λ c i. one_in_slot f next b c n l t m i) o.all_there);
        empty = λ slot h.
            load_empty crc32 slot g l0 stored (spread crc32 (λ c. c.slot ≢ slot) f g h o.all_there)
            ∙ ap (λ x. get_or x slot false) (record_all_flags cs initial)
            ∙ get_or-replicate journal_slots slot false;
      }

  -- The numbers of the events of this boot, and the events.
  loaded_ring :
      (cs : List Call) (g : Flash) (s : Log)
      → Good crc32 s g
      → s.ring_seq + length cs + 8 < 2 ^ 32
      → let t = resume (load crc32 g (record_all cs initial)) in
        (add32 (sub32 t.ring_seq t.ring_count) 1 ≡ s.persisted_event_seq + 1)
        × (ring_get_ordered t ≡ latest (events cs))
  loaded_ring cs g s y h =
      let l0 = record_all cs initial in
      let l = load crc32 g l0 in
      let (r, z) = blank crc32 cs (omega arith) in
      let w = load-Restores crc32 g s.journal_seq s.next_slot s.persisted_event_seq l0 y.1 z in
      let i = loaded-IsLoading crc32 cs s g y h in
      (
        omega (arith, (resume_numbers l i).0, (resume_blocks l).2, w.saved_is, i.room),
        ordered-contents (resume l)
            ∙ contents-resume l
            ∙ Kept-contents l0 l (load-Kept crc32 g l0 y.1.stored)
            ∙ sym (ordered-contents l0)
            ∙ ring_get_ordered-record_all cs initial initial-IsSound.wf
            ∙ ap (λ xs. latest (xs ++ events cs)) none_recorded,
      )

  run_ring :
      (ops : List Op) (s : Log) (f : Flash)
      → Good crc32 s f
      → s.ring_seq + total ops + 8 < 2 ^ 32
      → s.journal_seq + length ops < 2 ^ 32
      → (run crc32 ops (s, f)).0.ring_seq ≤ s.ring_seq + total ops
  unfolding run
  run_ring [] s f g h j = omega arith
  run_ring (op ∷ ops) s f g h j =
      let st = step-Stepped crc32 op s f g (omega arith) (omega arith) in
      let (t, f') = step crc32 op (s, f) in
      omega
        (arith, st.ring, run_ring ops t f' st.good (omega (arith, st.ring)) (omega (arith, st.seq)))

  -- A keyboard starts with an empty flash. Events are recorded, `persist` runs, with writes that
  -- succeed or fail and events that arrive meanwhile, and resets happen, in any order, while the
  -- 32-bit numbers last. After one more reset, with the stored blocks read back in any order, what
  -- a complete dump shows is this: the last `journal_slots` blocks that were written with success,
  -- over all boots, or all of them if they are fewer, oldest first, each with its events, and then
  -- the last `ring_cap` events that were recorded since the reset, numbered on from the last event
  -- that counted as saved.
  pub details-run :
      (ops : List Op) (cs : List Call) (g : Flash)
      → total ops + length cs + 8 < 2 ^ 32
      → length ops < 2 ^ 32
      → SameBlocks g (run crc32 ops fresh).1
      → let t = resume (load crc32 g (record_all cs initial)) in
        details t
        ≡ all_details (reverse (take journal_slots (written crc32 ops fresh [])))
          ++ ring_details ((run crc32 ops fresh).0.persisted_event_seq + 1) (latest (events cs))
  unfolding details
  details-run ops cs g h j o =
      let (s, f) = run crc32 ops fresh in
      let l0 = record_all cs initial in
      let l = load crc32 g l0 in
      let good = run-Good crc32 ops fresh.0 fresh.1 (fresh-Good crc32) fresh_ring fresh_seq in
      let grown = run_ring ops fresh.0 fresh.1 (fresh-Good crc32) fresh_ring fresh_seq in
      let ring : s.ring_seq + length cs + 8 < 2 ^ 32 = omega (arith, grown, fresh_zero) in
      let w =
        run-Latest crc32 ops fresh.0 fresh.1 [] (fresh-Good crc32) fresh_ring fresh_seq
          fresh-Latest in
      let short : length f ≤ journal_slots =
        omega (arith, ap length w.kept, length-take journal_slots (written crc32 ops fresh [])) in
      let y =
        InSync-SameBlocks crc32 f g s.journal_seq s.next_slot s.persisted_event_seq o good.1 in
      let next =
        (load-Restores crc32 g s.journal_seq s.next_slot s.persisted_event_seq l0 y
          (blank crc32 cs (omega arith)).1).next_is in
      let shown = resume-Shows f l (
        load-Shows f g s.next_slot cs (omega arith) good.0.slot_in short w.turns good.1.stored o) in
      let slots =
        Shows-details f (resume l) s.next_slot journal_slots (omega arith) good.0.slot_in
          ((resume_same l).1 ∙ next) w.turns shown in
      let ours = loaded_ring cs g s (good.0, y) ring in
      ap₂ ◌++◌
        (slots
          ∙ ap (λ x. all_details (reverse x))
              (ap (take journal_slots) w.kept
                ∙ take-take journal_slots journal_slots (written crc32 ops fresh []) (omega arith)))
        (ap₂ ring_details ours.0 ours.1)
    where
      fresh_zero : fresh.0.ring_seq ≡ 0
      fresh_zero = unfold resume in ground arith

      fresh_ring : fresh.0.ring_seq + total ops + 8 < 2 ^ 32
      fresh_ring = omega (arith, fresh_zero, h)

      fresh_seq : fresh.0.journal_seq + length ops < 2 ^ 32
      fresh_seq = unfold resume in ground (arith, j)

      fresh-Latest : Latest crc32 [] fresh.0.next_slot fresh.1
      fresh-Latest = record { kept = refl; turns = tt }
