-- ===== src/Timing/Drain.antt =====
-- The drain loop, when nothing is captured meanwhile.
use totem_zmk_config.Prelude.{
  ℕ, zero, suc, ◌≡◌, refl, sym, ap, ◌∙◌, arith, List, ◌++◌, append_assoc,
}
use totem_zmk_config.Timing.{TimingRecord, Inbox, drain_round, drain_rounds, timing_drain}
use totem_zmk_config.Timing.Fifo.{contents, queued, drain_round-contents}

-- What is passed on when the queue is empty.
abbrev pub notice : ℕ → Inbox → List TimingRecord
notice now s = (drain_round now (record s { timing_count = 0 })).1

round-count :
    (now k : ℕ) (s : Inbox)
    → s.timing_count ≡ suc k
    → ((drain_round now s).0.timing_count ≡ k)
      × ((drain_round now s).0.timing_dropped ≡ s.timing_dropped)
unfolding drain_round
round-count now k s h = ground arith

notice_same :
    (now : ℕ) (s t : Inbox) → t.timing_dropped ≡ s.timing_dropped → notice now t ≡ notice now s
unfolding drain_round
notice_same now s t e = rw e refl

empty_drain :
    (now : ℕ) (s : Inbox)
    → s.timing_count ≡ 0
    → ((drain_round now s).1 ≡ contents s ++ notice now s)
      × ((drain_round now s).0.timing_count ≡ 0)
      × ((drain_round now s).0.timing_dropped ≡ 0)
unfolding drain_round contents queued
empty_drain now s h = (rw h refl, ground arith, ground arith)

rounds-contents :
    (now k : ℕ) (s : Inbox)
    → s.timing_count ≡ k
    → ((drain_rounds now k s).1 ≡ contents s ++ notice now s)
      × ((drain_rounds now k s).0.timing_count ≡ 0)
      × ((drain_rounds now k s).0.timing_dropped ≡ 0)
unfolding drain_rounds
rounds-contents now zero s h = empty_drain now s h
rounds-contents now (suc k) s h =
    let s' = (drain_round now s).0 in
    let counts = round-count now k s h in
    let rest = rounds-contents now k s' counts.0 in
    let first = drain_round-contents now s (λ q. absurd omega (arith, h, q)) in
    (
      ap (λ l. (drain_round now s).1 ++ l)
            (rest.0 ∙ ap (λ l. contents s' ++ l) (notice_same now s s' counts.1))
          ∙ sym (append_assoc (drain_round now s).1 (contents s') (notice now s))
          ∙ ap (λ l. l ++ notice now s) (sym first),
      rest.1,
      rest.2,
    )

-- Undisturbed, the work passes on the whole queue in order, then the number of refused records if
-- there were any, and leaves the queue and that number empty.
pub timing_drain-contents :
    (now : ℕ) (s : Inbox)
    → ((timing_drain now s).1 ≡ contents s ++ notice now s)
      × ((timing_drain now s).0.timing_count ≡ 0)
      × ((timing_drain now s).0.timing_dropped ≡ 0)
unfolding timing_drain
timing_drain-contents now s = rounds-contents now s.timing_count s refl
