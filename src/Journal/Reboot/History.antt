-- ===== src/Journal/Reboot/History.antt =====
-- Flash holds the last blocks that were written, over all resets.
use totem_zmk_config.Prelude.{
  ℕ, ◌+◌, ◌-◌, ◌%◌, ◌^◌, ◌≤◌, ◌<◌, ◌≡◌, refl, ap, sym, subst, ◌∙◌, arith, true, ◌⊎◌, inl, inr, List,
  [], ◌∷◌, ◌++◌, length, take, take-take, length-take, Bool-cases, is_nonzero, if◌then◌else◌, ℤ,
  Option, none, some,
}
use totem_zmk_config.Config.{journal_slots}
use totem_zmk_config.Boot.{Boot}
use totem_zmk_config.Journal.{Log, initial, schedule_persist_coalesced}
use totem_zmk_config.Journal.Layout.{Block, Payload}
use totem_zmk_config.Journal.Record.{Call, record_all, schedule-request}
use totem_zmk_config.Journal.Persist.{
  Begin, not_ready, too_soon, nothing_new, writing, persist_begin, persist_finish, Env, persist,
  after_begin,
}
use totem_zmk_config.Journal.Persist.Progress.{persist_begin-Written}
use totem_zmk_config.Journal.Reboot.{
  Flash, Op, recording, saving, reset, cost, total, without, save, outcome, load, step, run,
}
use totem_zmk_config.Journal.Reboot.Saving.{Good}
use totem_zmk_config.Journal.Reboot.Steps.{record_all-Recorded, nothing_new_lem, writing-Flying}
use totem_zmk_config.Journal.Reboot.Calls.{fin_saved, fin_failed}
use totem_zmk_config.Journal.Reboot.Order.{load-Restores}
use totem_zmk_config.Journal.Reboot.Recovery.{blank, resume_same, step-Stepped}
use totem_zmk_config.Journal.Reboot.Rotation.{Turns, Turns-take, without-take}

-- What a write adds to flash.
abbrev pub added : ℤ → Option Block → List Block
added err none = []
added err (some b) = if is_nonzero err then [] else b ∷ []

module _ (crc32 : Payload → ℕ) where
  abbrev pub writes : Op → Log × Flash → List Block
  writes (recording cs) (s, f) = []
  writes (saving env b cs) (s, f) = added env.err (outcome crc32 env b cs s).block
  writes (reset cs) (s, f) = []

  -- All blocks that were written with success, newest first, before those in `ws`.
  pub written : List Op → Log × Flash → List Block → List Block
  written [] sf ws = ws
  written (op ∷ ops) sf ws = written ops (step crc32 op sf) (writes op sf ++ ws)

  -- An operation writes nothing and leaves the next slot, or writes one block there.
  abbrev Moves : ℕ → Flash → List Block → ℕ → Flash → Type 0
  Moves next f ws next' f' =
      ((ws ≡ []) × (f' ≡ f) × (next' ≡ next))
      ⊎ ((b : Block) × (ws ≡ b ∷ [])
          × (f' ≡ b ∷ without b.slot f)
          × (b.slot ≡ next)
          × (next' ≡ (b.slot + 1) % journal_slots))

  finish-Moves :
      (err : ℤ) (now : ℕ) (block : Block) (last next : ℕ) (t : Log) (f : Flash)
      → t.next_slot ≡ next
      → block.slot ≡ next
      → Moves next f
          (added err (some block))
          (persist_finish err now block last t).0.next_slot
          (save err (some block) f)
  finish-Moves err now block last next t f h e = elim (Bool-cases (is_nonzero err)) [
    | inl failed ↦
        let u = fin_failed crc32 err now block last t failed in
        rw failed (inl (refl, refl, u.2 ∙ h))
    | inr saved ↦
        let u = fin_saved crc32 err now block last t saved in
        rw saved (inr (block, refl, refl, e, u.2))
  ]

  requested_slot :
      (later : ℕ) (t : Log) → (schedule_persist_coalesced true later t).0.next_slot ≡ t.next_slot
  requested_slot later t = rw (schedule-request true later t) refl

  after-Moves :
      (env : Env) (b : Boot) (cs : List Call) (s : Log) (f : Flash) (r : Begin)
      → Good crc32 s f
      → s.ring_seq + 1 + length cs < 2 ^ 32
      → s.journal_seq + 1 < 2 ^ 32
      → persist_begin crc32 env.now s ≡ r
      → let o = after_begin crc32 (record env { meanwhile = record_all cs }) b s r in
        Moves s.next_slot f (added env.err o.block) o.log.next_slot (save env.err o.block f)
  unfolding after_begin
  after-Moves env b cs s f not_ready g h j e = inl (refl, refl, refl)
  after-Moves env b cs s f too_soon g h j e = inl (refl, refl, requested_slot env.later s)
  after-Moves env b cs s f (nothing_new s') g h j e =
      inl (refl, refl, ap (λ x. x.next_slot) (nothing_new_lem crc32 env.now s s' e))
  after-Moves env b cs s f (writing s' block last) g h j e =
      let t = record_all cs s' in
      let u = (persist_finish env.err env.done block last t).0 in
      let w = persist_begin-Written crc32 env.now s g.0 e in
      let flying = writing-Flying crc32 env.now cs s g.0 h j e in
      let m = finish-Moves env.err env.done block last s.next_slot t f flying.next w.where_to in
      elim (Bool-cases (persist_finish env.err env.done block last t).1) [
        | inl more ↦ rw (more, requested_slot env.later u) m
        | inr done ↦ rw done m
      ]

  step-Moves :
      (op : Op) (s : Log) (f : Flash)
      → Good crc32 s f
      → s.ring_seq + cost op + 8 < 2 ^ 32
      → s.journal_seq + 1 < 2 ^ 32
      → let (t, f') = step crc32 op (s, f) in Moves s.next_slot f (writes op (s, f)) t.next_slot f'
  unfolding step persist
  step-Moves (recording cs) s f g h j =
      inl (refl, refl, (record_all-Recorded cs s g.0 (omega arith)).next)
  step-Moves (saving env b cs) s f g h j =
      after-Moves env b cs s f (persist_begin crc32 env.now s) g (omega arith) j refl
  step-Moves (reset cs) s f g h j =
      let l0 = record_all cs initial in
      let z = (blank crc32 cs (omega arith)).1 in
      let w = load-Restores crc32 f s.journal_seq s.next_slot s.persisted_event_seq l0 g.1 z in
      inl (refl, refl, (resume_same (load crc32 f l0)).1 ∙ w.next_is)

  -- Flash, against all blocks written so far.
  pub record Latest (ws : List Block) (next : ℕ) (f : Flash) : Type 0 where
    pub kept : f ≡ take journal_slots ws
    pub turns : Turns next f

  Moves-Latest :
      (ws new : List Block) (next next' : ℕ) (f f' : Flash)
      → next < journal_slots
      → Latest ws next f
      → Moves next f new next' f'
      → Latest (new ++ ws) next' f'
  Moves-Latest ws new next next' f f' h l (inl (n, e, k)) = rw (n, e, k) l
  Moves-Latest ws new next next' f f' h l (inr (b, n, e, at_next, k)) =
      let short : length f ≤ journal_slots =
        omega (arith, ap length l.kept, length-take journal_slots ws) in
      let rest : without b.slot f ≡ take (journal_slots - 1) f =
        ap (λ x. without x f) at_next
        ∙ without-take f next 0 next h (omega arith) (omega (arith, short)) l.turns in
      let older : without b.slot f ≡ take (journal_slots - 1) ws =
        rest
        ∙ ap (take (journal_slots - 1)) l.kept
        ∙ take-take (journal_slots - 1) journal_slots ws (omega arith) in
      rw (n, e)
        (record {
          kept = ap (λ xs. b ∷ xs) older;
          turns = (
            omega (arith, at_next, h),
            k,
            subst (λ x. Turns b.slot x) (sym rest)
                (subst (λ x. Turns x (take (journal_slots - 1) f)) (sym at_next)
                  (Turns-take (journal_slots - 1) next f l.turns)),
          );
        })

  pub run-Latest :
      (ops : List Op) (s : Log) (f : Flash) (ws : List Block)
      → Good crc32 s f
      → s.ring_seq + total ops + 8 < 2 ^ 32
      → s.journal_seq + length ops < 2 ^ 32
      → Latest ws s.next_slot f
      → Latest (written ops (s, f) ws) (run crc32 ops (s, f)).0.next_slot (run crc32 ops (s, f)).1
  unfolding run written
  run-Latest [] s f ws g h j l = l
  run-Latest (op ∷ ops) s f ws g h j l =
      let st = step-Stepped crc32 op s f g (omega arith) (omega arith) in
      let m = step-Moves op s f g (omega arith) (omega arith) in
      let (t, f') = step crc32 op (s, f) in
      run-Latest ops t f' (writes op (s, f) ++ ws) st.good (omega (arith, st.ring))
        (omega (arith, st.seq))
        (Moves-Latest ws (writes op (s, f)) s.next_slot t.next_slot f f' g.0.slot_in l m)
