-- ===== src/Journal/Reboot/Calls.antt =====
-- A whole call of `persist`, with what is recorded during its write.
use totem_zmk_config.Prelude.{
  ℕ, ◌+◌, ◌%◌, ◌^◌, ◌≤◌, ◌<◌, ◌≡◌, refl, sym, ◌∙◌, arith, true, false, inl, inr, List, length, ℤ,
  is_nonzero, Bool-cases, some, length-set,
}
use totem_zmk_config.Config.{journal_slots}
use totem_zmk_config.Boot.{Boot}
use totem_zmk_config.Journal.{Log, schedule_persist_coalesced}
use totem_zmk_config.Journal.Layout.{Block, Payload}
use totem_zmk_config.Journal.Sequence.{IsSound}
use totem_zmk_config.Journal.Record.{Call, record_all, schedule-request}
use totem_zmk_config.Journal.Persist.{
  Begin, not_ready, too_soon, nothing_new, writing, persist_begin, persist_finish, Env, persist,
  after_begin,
}
use totem_zmk_config.Journal.Reboot.{Flash, save, outcome}
use totem_zmk_config.Journal.Reboot.Saving.{Good, Good-touch, InSync-fail, InSync-write}
use totem_zmk_config.Journal.Reboot.Steps.{
  Stepped, Flying, touched-Stepped, nothing_new_lem, writing-Flying,
}

module _ (crc32 : Payload → ℕ) where
  fin-IsSound :
      (err : ℤ) (now : ℕ) (block : Block) (last : ℕ) (t : Log)
      → IsSound t
      → last ≤ t.ring_seq
      → IsSound (persist_finish err now block last t).0
  unfolding persist_finish
  fin-IsSound err now block last t v h = ground (
    arith,
    length-set t.restored_blocks block.slot block,
    length-set t.restored_valid block.slot true,
  )

  pub fin_saved :
      (err : ℤ) (now : ℕ) (block : Block) (last : ℕ) (t : Log)
      → is_nonzero err ≡ false
      → let u = (persist_finish err now block last t).0 in
        (u.ring_seq ≡ t.ring_seq)
        × (u.journal_seq ≡ t.journal_seq)
        × (u.next_slot ≡ (block.slot + 1) % journal_slots)
        × (u.persisted_event_seq ≡ last)
  unfolding persist_finish
  fin_saved err now block last t h = rw h (refl, refl, refl, refl)

  pub fin_failed :
      (err : ℤ) (now : ℕ) (block : Block) (last : ℕ) (t : Log)
      → is_nonzero err ≡ true
      → let u = (persist_finish err now block last t).0 in
        (u.ring_seq ≡ t.ring_seq)
        × (u.journal_seq ≡ t.journal_seq)
        × (u.next_slot ≡ t.next_slot)
        × (u.persisted_event_seq ≡ t.persisted_event_seq)
  unfolding persist_finish
  fin_failed err now block last t h = rw h (refl, refl, refl, refl)

  -- What the write leaves, whether it succeeded or not.
  finish-Stepped :
      (err : ℤ) (now n : ℕ) (s t : Log) (block : Block) (last : ℕ) (f : Flash)
      → Good crc32 s f
      → Flying crc32 s n block last t
      → Stepped crc32 s n (persist_finish err now block last t).0 (save err (some block) f)
  finish-Stepped err now n s t block last f g w =
      let sound = fin-IsSound err now block last t w.sound w.in_ring in
      elim (Bool-cases (is_nonzero err)) [
        | inl failed ↦
            let u = fin_failed err now block last t failed in
            record {
              good = (
                sound,
                rw (failed, u.1 ∙ w.seq, u.2 ∙ w.next, u.3 ∙ w.saved)
                    (InSync-fail crc32 f s.journal_seq s.next_slot s.persisted_event_seq g.1),
              );
              ring = omega (arith, u.0, w.ring);
              seq = omega (arith, u.1, w.seq);
            }
        | inr written ↦
            let u = fin_saved err now block last t written in
            record {
              good = (
                sound,
                rw (written, u.1 ∙ w.seq, u.2, u.3 ∙ sym w.last_is)
                    (InSync-write crc32 f block s.journal_seq s.next_slot s.persisted_event_seq g.1
                      w.stored w.number (omega (arith, w.news, w.last_is))),
              );
              ring = omega (arith, u.0, w.ring);
              seq = omega (arith, u.1, w.seq);
            }
      ]

  requested-Stepped :
      (s t : Log) (n : ℕ) (f : Flash) (later : ℕ)
      → Stepped crc32 s n t f
      → Stepped crc32 s n (schedule_persist_coalesced true later t).0 f
  requested-Stepped s t n f later st =
      rw (schedule-request true later t)
        (record { good = Good-touch crc32 t f true st.good; ring = st.ring; seq = st.seq })

  after-Stepped :
      (env : Env) (b : Boot) (cs : List Call) (s : Log) (f : Flash) (r : Begin)
      → Good crc32 s f
      → s.ring_seq + 1 + length cs < 2 ^ 32
      → s.journal_seq + 1 < 2 ^ 32
      → persist_begin crc32 env.now s ≡ r
      → let o = after_begin crc32 (record env { meanwhile = record_all cs }) b s r in
        Stepped crc32 s (length cs) o.log (save env.err o.block f)
  unfolding after_begin
  after-Stepped env b cs s f not_ready g h j e = record {
    good = g;
    ring = omega arith;
    seq = omega arith;
  }
  after-Stepped env b cs s f too_soon g h j e =
      requested-Stepped s s (length cs) f env.later
        (record { good = g; ring = omega arith; seq = omega arith })
  after-Stepped env b cs s f (nothing_new s') g h j e =
      rw (nothing_new_lem crc32 env.now s s' e) (touched-Stepped crc32 s (length cs) f false g)
  after-Stepped env b cs s f (writing s' block last) g h j e =
      let t = record_all cs s' in
      let st =
        finish-Stepped env.err env.done (length cs) s t block last f g
          (writing-Flying crc32 env.now cs s g.0 h j e) in
      elim (Bool-cases (persist_finish env.err env.done block last t).1) [
        | inl more ↦ rw more (
            requested-Stepped s (persist_finish env.err env.done block last t).0 (length cs)
              (save env.err (some block) f) env.later st)
        | inr done ↦ rw done st
      ]

  -- A call of `persist`, on every branch.
  pub saving-Stepped :
      (env : Env) (b : Boot) (cs : List Call) (s : Log) (f : Flash)
      → Good crc32 s f
      → s.ring_seq + 1 + length cs < 2 ^ 32
      → s.journal_seq + 1 < 2 ^ 32
      → let o = outcome crc32 env b cs s in
        Stepped crc32 s (length cs) o.log (save env.err o.block f)
  unfolding persist
  saving-Stepped env b cs s f g h j =
      after-Stepped env b cs s f (persist_begin crc32 env.now s) g h j refl
