-- ===== src/Journal/Reboot/Saving.antt =====
-- Flash and the log's numbers stay in step, whether a write succeeds or fails.
use totem_zmk_config.Prelude.{
  ℕ, ◌+◌, ◌%◌, ◌≤◌, ◌<◌, ◌≡◌, refl, arith, Bool, ◌⊎◌, inl, inr, [], ◌∷◌, All, All-map, Bool-cases,
  ◌==◌,
}
use mathlib.Core.List.{Memᴰ}
use totem_zmk_config.Config.{journal_slots}
use totem_zmk_config.Journal.{Log}
use totem_zmk_config.Journal.Layout.{Block, Payload}
use totem_zmk_config.Journal.Sequence.{IsSound}
use totem_zmk_config.Journal.Restore.{last_seq}
use totem_zmk_config.Journal.Reboot.{Flash, without}
use totem_zmk_config.Journal.Reboot.Load.{IsStored, IsBehind}

All-without : (P : Block → Type 0) (slot : ℕ) (f : Flash) → All P f → All P (without slot f)
All-without P slot [] h = tt
All-without P slot (c ∷ cs) h = elim (Bool-cases (c.slot == slot)) [
  | inl same ↦ rw same (All-without P slot cs h.1)
  | inr other ↦ rw other (h.0, All-without P slot cs h.1)
]

-- A saved block's place among the numbers of a log.
pub record IsWithin (seq saved : ℕ) (c : Block) : Type 0 where
  pub seq_in : c.journal_seq ≤ seq
  pub last_in : last_seq c ≤ saved

IsWithin-later :
    (seq seq' saved saved' : ℕ)
    → seq ≤ seq'
    → saved ≤ saved'
    → (c : Block) → IsWithin seq saved c
    → IsWithin seq' saved' c
IsWithin-later seq seq' saved saved' h k c w = record {
  seq_in = omega (arith, w.seq_in);
  last_in = omega (arith, w.last_in);
}

module _ (crc32 : Payload → ℕ) where
  -- The newest block of flash, for a log with these numbers.
  abbrev pub Newest : Flash → ℕ → ℕ → Type 0
  Newest f next saved =
      ((f ≡ []) × (next ≡ 0) × (saved ≡ 0))
      ⊎ ((b : Block) × Memᴰ b f
          × (next ≡ (b.slot + 1) % journal_slots)
          × (saved ≡ last_seq b)
          × All (IsBehind b) f)

  -- Flash holds what a log with these numbers has written.
  pub record InSync (f : Flash) (seq next saved : ℕ) : Type 0 where
    pub stored : All (IsStored crc32) f
    pub within : All (IsWithin seq saved) f
    pub newest : Newest f next saved

  abbrev pub Good : Log → Flash → Type 0
  Good s f = IsSound s × InSync f s.journal_seq s.next_slot s.persisted_event_seq

  -- The flags of a request and of a time do not matter.
  IsSound-touch : (s : Log) (q : Bool) → IsSound s → IsSound (record s { persist_requested = q })
  IsSound-touch s q v = ground arith

  pub Good-touch :
      (s : Log) (f : Flash) (q : Bool) → Good s f → Good (record s { persist_requested = q }) f
  Good-touch s f q g = (IsSound-touch s q g.0, g.1)

  pub InSync-fail :
      (f : Flash) (seq next saved : ℕ) → InSync f seq next saved → InSync f (seq + 1) next saved
  InSync-fail f seq next saved y = record {
    stored = y.stored;
    within =
        All-map (IsWithin seq saved) (IsWithin (seq + 1) saved) f
          (IsWithin-later seq (seq + 1) saved saved (omega arith) (omega arith)) y.within;
    newest = y.newest;
  }

  IsBehind-new :
      (b : Block) (seq saved : ℕ)
      → b.journal_seq ≡ seq + 1
      → saved < last_seq b
      → (c : Block) → IsWithin seq saved c
      → IsBehind b c
  IsBehind-new b seq saved h k c w = record {
    seq = omega (arith, w.seq_in);
    same = λ e. absurd (omega (arith, w.seq_in));
    last = omega (arith, w.last_in);
  }

  pub InSync-write :
      (f : Flash) (b : Block) (seq next saved : ℕ)
      → InSync f seq next saved
      → IsStored crc32 b
      → b.journal_seq ≡ seq + 1
      → saved < last_seq b
      → InSync (b ∷ without b.slot f) (seq + 1) ((b.slot + 1) % journal_slots) (last_seq b)
  InSync-write f b seq next saved y st h k =
      let older : All (IsWithin seq saved) (without b.slot f) =
        All-without (IsWithin seq saved) b.slot f y.within in
      record {
        stored = (st, All-without (IsStored crc32) b.slot f y.stored);
        within = (
          record { seq_in = omega arith; last_in = omega arith },
          All-map (IsWithin seq saved) (IsWithin (seq + 1) (last_seq b)) (without b.slot f)
              (IsWithin-later seq (seq + 1) saved (last_seq b) (omega arith) (omega arith)) older,
        );
        newest = inr (
          b,
          Memᴰ.head refl,
          refl,
          refl,
          (
            record { seq = omega arith; same = λ e. refl; last = omega arith },
            All-map (IsWithin seq saved) (IsBehind b) (without b.slot f)
                (IsBehind-new b seq saved h k) older,
          ),
        );
      }
