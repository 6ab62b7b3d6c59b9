-- ===== src/Timing/Interleave.antt =====
-- Captures in the controller's path and rounds of the drain, in any order.
use totem_zmk_config.Prelude.{
  ℕ, suc, ◌+◌, ◌≤◌, ◌≡◌, refl, sym, ap, ◌∙◌, arith, List, [], ◌∷◌, ◌++◌, ltb, ◌==◌, if◌then◌else◌,
  append_assoc, append-nil, Bool-cases, inl, inr, ltb→lt, ge_of_ltb,
}
use totem_zmk_config.Hevt.{Hevt, code}
use totem_zmk_config.Timing.{
  TimingRecord, Inbox, timing_cap, totem_diagnostic_timing_capture, drain_round,
}
use totem_zmk_config.Timing.Fifo.{
  IsInbox, contents, queued, capture-IsInbox, drain_round-IsInbox, capture-contents, capture-full,
  drain_round-contents,
}

-- One section under the lock.
pub data Op : Type 0 where
  capture : TimingRecord → Op
  drain : ℕ → Op

abbrev pub after_op : Op → Inbox → Inbox
after_op (capture r) s = totem_diagnostic_timing_capture r s
after_op (drain now) s = (drain_round now s).0

unfoldable pub after : List Op → Inbox → Inbox
after [] s = s
after (o ∷ os) s = after os (after_op o s)

-- The records taken while there was room.
abbrev pub accepted_op : Op → Inbox → List TimingRecord
accepted_op (capture r) s = if ltb s.timing_count timing_cap then r ∷ [] else []
accepted_op (drain now) s = []

unfoldable pub accepted : List Op → Inbox → List TimingRecord
accepted [] s = []
accepted (o ∷ os) s = accepted_op o s ++ accepted os (after_op o s)

-- The queued records that were passed on.
abbrev pub passed_op : Op → Inbox → List TimingRecord
passed_op (capture r) s = []
passed_op (drain now) s = if s.timing_count == 0 then [] else (drain_round now s).1

unfoldable pub passed : List Op → Inbox → List TimingRecord
passed [] s = []
passed (o ∷ os) s = passed_op o s ++ passed os (after_op o s)

op-IsInbox : (o : Op) (s : Inbox) → IsInbox s → IsInbox (after_op o s)
op-IsInbox (capture r) s v = capture-IsInbox r s v
op-IsInbox (drain now) s v = drain_round-IsInbox now s v

empty_round :
    (now : ℕ) (s : Inbox) → s.timing_count ≡ 0 → contents s ≡ contents (drain_round now s).0
unfolding contents queued drain_round
empty_round now s e = rw e refl

op-fifo :
    (o : Op) (s : Inbox)
    → IsInbox s
    → contents s ++ accepted_op o s ≡ passed_op o s ++ contents (after_op o s)
op-fifo (capture r) s v = elim (Bool-cases (ltb s.timing_count timing_cap)) [
  | inl e ↦ rw e (sym (capture-contents r s v (ltb→lt s.timing_count timing_cap e)))
  | inr e ↦
      rw (e, append-nil (contents s))
        (sym (capture-full r s (ge_of_ltb s.timing_count timing_cap e)).0)
]
op-fifo (drain now) s v = rw (append-nil (contents s)) (elim (Bool-cases (s.timing_count == 0)) [
  | inl e ↦ rw e (empty_round now s ground arith)
  | inr e ↦ rw e (drain_round-contents now s (λ q. absurd ground arith))
])

-- From a well-formed inbox, in any interleaving of captures and drain rounds, the records that were there or were accepted
-- are exactly those passed on, in the order of their capture, and those still queued.
pub ops-fifo :
    (os : List Op) (s : Inbox)
    → IsInbox s
    → contents s ++ accepted os s ≡ passed os s ++ contents (after os s)
unfolding accepted passed after
ops-fifo [] s v = append-nil (contents s)
ops-fifo (o ∷ os) s v =
    sym (append_assoc (contents s) (accepted_op o s) (accepted os (after_op o s)))
    ∙ ap (λ l. l ++ accepted os (after_op o s)) (op-fifo o s v)
    ∙ append_assoc (passed_op o s) (contents (after_op o s)) (accepted os (after_op o s))
    ∙ ap (λ l. passed_op o s ++ l) (ops-fifo os (after_op o s) (op-IsInbox o s v))
    ∙ sym (
        append_assoc (passed_op o s) (passed os (after_op o s))
          (contents (after os (after_op o s))))

-- How many captures were refused.
unfoldable pub refused : List Op → Inbox → ℕ
refused [] s = 0
refused (capture r ∷ os) s =
    let rest = refused os (totem_diagnostic_timing_capture r s) in
    if ltb s.timing_count timing_cap then rest else suc rest
refused (drain now ∷ os) s = refused os (drain_round now s).0

-- The sum of what the notices among some records say.
abbrev pub notice_sum : List TimingRecord → ℕ
notice_sum [] = 0
notice_sum (r ∷ rs) =
    (if code r.type == code Hevt.timing_dropped then r.reason else 0) + notice_sum rs

-- What a round reports: one on an empty inbox passes on no queued record.
abbrev pub reported_round : ℕ → Inbox → ℕ
reported_round now s = if s.timing_count == 0 then notice_sum (drain_round now s).1 else 0

-- How many refused captures the notices that go to the journal report.
unfoldable pub reported : List Op → Inbox → ℕ
reported [] s = 0
reported (capture r ∷ os) s = reported os (totem_diagnostic_timing_capture r s)
reported (drain now ∷ os) s = reported_round now s + reported os (drain_round now s).0

-- From any inbox, in any interleaving of captures and drain rounds with at most 255 refused captures,
-- those counted at the start included, the captures refused are as many as the notices passed on to
-- the journal say in their reason, and those counted for the next notice.
pub ops-refused :
    (os : List Op) (s : Inbox)
    → refused os s + s.timing_dropped ≤ 255
    → refused os s + s.timing_dropped ≡ reported os s + (after os s).timing_dropped
unfolding refused reported after totem_diagnostic_timing_capture drain_round
ops-refused [] s h = omega arith
ops-refused (capture r ∷ os) s h =
    ground (arith, ops-refused os (totem_diagnostic_timing_capture r s))
ops-refused (drain now ∷ os) s h = ground (arith, ops-refused os (drain_round now s).0)
