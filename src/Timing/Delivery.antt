-- ===== src/Timing/Delivery.antt =====
-- The inbox and the journal together: captures, rounds of the drain, and other modules that record.
use totem_zmk_config.Prelude.{
  ℕ, ◌≡◌, refl, sym, ap, ap₂, ◌∙◌, false, List, [], ◌∷◌, ◌++◌, map, Bool-cases, inl, inr, ◌==◌,
  if◌then◌else◌,
}
use mathlib.Core.List.{map-append}
use totem_zmk_config.Event.{Event, event}
use totem_zmk_config.Journal.{Log, ring_get_ordered}
use totem_zmk_config.Journal.Ordered.{IsWf}
use totem_zmk_config.Journal.Record.{Call, record_all, events, latest, ring_get_ordered-record_all}
use totem_zmk_config.Timing.{TimingRecord, Inbox, totem_diagnostic_timing_capture, drain_round}
use totem_zmk_config.Timing.Fifo.{IsInbox, contents}
use totem_zmk_config.Timing.Interleave.{
  Op, capture, drain, after, accepted, passed, passed_op, ops-fifo,
}

-- A capture, a round of the drain, or a call of another module.
pub data Happening : Type 0 where
  captured : TimingRecord → Happening
  drained : ℕ → Happening
  recorded : Call → Happening

-- What the inbox sees of it.
abbrev pub ops : List Happening → List Op
ops [] = []
ops (captured r ∷ hs) = capture r ∷ ops hs
ops (drained now ∷ hs) = drain now ∷ ops hs
ops (recorded c ∷ hs) = ops hs

-- The arguments of `totem_host_event_log_record_timing`.
abbrev pub timing_event : TimingRecord → Event
timing_event r = event r.uptime_ms r.type r.idx r.active r.reason r.pair r.extra

-- A row of the journal: of a queued record, of a notice of refused ones, or of another module.
pub data Row : Type 0 where
  queued_row : Event → Row
  notice_row : Event → Row
  other_row : Call → Row

abbrev pub call_of : Row → Call
call_of (queued_row e) = (e, false, 0)
call_of (notice_row e) = (e, false, 0)
call_of (other_row c) = c

abbrev pub queued_rows : List Row → List Event
queued_rows [] = []
queued_rows (queued_row e ∷ rows) = e ∷ queued_rows rows
queued_rows (notice_row e ∷ rows) = queued_rows rows
queued_rows (other_row c ∷ rows) = queued_rows rows

-- The rows of a round.
abbrev pub round_rows : ℕ → Inbox → List Row
round_rows now s =
    if s.timing_count == 0
    then map (λ r. notice_row (timing_event r)) (drain_round now s).1
    else map (λ r. queued_row (timing_event r)) (drain_round now s).1

unfoldable pub deliver : List Happening → Inbox × Log → Inbox × Log
deliver [] (s, l) = (s, l)
deliver (captured r ∷ hs) (s, l) = deliver hs (totem_diagnostic_timing_capture r s, l)
deliver (drained now ∷ hs) (s, l) =
    deliver hs ((drain_round now s).0, record_all (map call_of (round_rows now s)) l)
deliver (recorded c ∷ hs) (s, l) = deliver hs (s, record_all (c ∷ []) l)

-- All rows, in order.
unfoldable pub rows : List Happening → Inbox → List Row
rows [] s = []
rows (captured r ∷ hs) s = rows hs (totem_diagnostic_timing_capture r s)
rows (drained now ∷ hs) s = round_rows now s ++ rows hs (drain_round now s).0
rows (recorded c ∷ hs) s = other_row c ∷ rows hs s

record_all-append :
    (xs ys : List Call) (l : Log) → record_all (xs ++ ys) l ≡ record_all ys (record_all xs l)
unfolding record_all
record_all-append [] ys l = refl
record_all-append ((e, p, now) ∷ xs) ys l = record_all-append xs ys _

deliver-rows :
    (hs : List Happening) (s : Inbox) (l : Log)
    → (deliver hs (s, l)).1 ≡ record_all (map call_of (rows hs s)) l
unfolding deliver rows record_all
deliver-rows [] s l = refl
deliver-rows (captured r ∷ hs) s l = deliver-rows hs (totem_diagnostic_timing_capture r s) l
deliver-rows (drained now ∷ hs) s l =
    let new = map call_of (round_rows now s) in
    let s' = (drain_round now s).0 in
    deliver-rows hs s' (record_all new l)
    ∙ sym (record_all-append new (map call_of (rows hs s')) l)
    ∙ ap (λ cs. record_all cs l) (sym (map-append call_of (round_rows now s) (rows hs s')))
deliver-rows (recorded (e, p, now) ∷ hs) s l = deliver-rows hs s _

deliver-after :
    (hs : List Happening) (s : Inbox) (l : Log) → (deliver hs (s, l)).0 ≡ after (ops hs) s
unfolding deliver after
deliver-after [] s l = refl
deliver-after (captured r ∷ hs) s l = deliver-after hs (totem_diagnostic_timing_capture r s) l
deliver-after (drained now ∷ hs) s l =
    deliver-after hs (drain_round now s).0 (record_all (map call_of (round_rows now s)) l)
deliver-after (recorded c ∷ hs) s l = deliver-after hs s (record_all (c ∷ []) l)

queued_rows-append : (xs ys : List Row) → queued_rows (xs ++ ys) ≡ queued_rows xs ++ queued_rows ys
queued_rows-append [] ys = refl
queued_rows-append (queued_row e ∷ xs) ys = ap (λ l. e ∷ l) (queued_rows-append xs ys)
queued_rows-append (notice_row e ∷ xs) ys = queued_rows-append xs ys
queued_rows-append (other_row c ∷ xs) ys = queued_rows-append xs ys

all_queued :
    (rs : List TimingRecord)
    → queued_rows (map (λ r. queued_row (timing_event r)) rs) ≡ map timing_event rs
all_queued [] = refl
all_queued (r ∷ rs) = ap (λ l. timing_event r ∷ l) (all_queued rs)

none_queued :
    (rs : List TimingRecord) → queued_rows (map (λ r. notice_row (timing_event r)) rs) ≡ []
none_queued [] = refl
none_queued (r ∷ rs) = none_queued rs

round-queued :
    (now : ℕ) (s : Inbox)
    → queued_rows (round_rows now s) ≡ map timing_event (passed_op (drain now) s)
round-queued now s = elim (Bool-cases (s.timing_count == 0)) [
  | inl e ↦ rw e (none_queued (drain_round now s).1)
  | inr e ↦ rw e (all_queued (drain_round now s).1)
]

rows-passed :
    (hs : List Happening) (s : Inbox)
    → queued_rows (rows hs s) ≡ map timing_event (passed (ops hs) s)
unfolding rows passed
rows-passed [] s = refl
rows-passed (captured r ∷ hs) s = rows-passed hs (totem_diagnostic_timing_capture r s)
rows-passed (drained now ∷ hs) s =
    let s' = (drain_round now s).0 in
    queued_rows-append (round_rows now s) (rows hs s')
    ∙ ap₂ ◌++◌ (round-queued now s) (rows-passed hs s')
    ∙ sym (map-append timing_event (passed_op (drain now) s) (passed (ops hs) s'))
rows-passed (recorded c ∷ hs) s = rows-passed hs s

-- However captures, rounds of the drain and calls of other modules follow each other, from a
-- well-formed inbox and log, the journal ends with the rows of all of them in order, less the
-- oldest of more than `ring_cap`; and among these rows, the records that were queued or were
-- accepted stand in the order of their capture, each once, but for those that are still queued.
pub deliver-queued :
    (hs : List Happening) (s : Inbox) (l : Log)
    → IsInbox s
    → IsWf l
    → let (s', l') = deliver hs (s, l) in
      (ring_get_ordered l' ≡ latest (ring_get_ordered l ++ events (map call_of (rows hs s))))
      × (map timing_event (contents s ++ accepted (ops hs) s)
          ≡ queued_rows (rows hs s) ++ map timing_event (contents s'))
deliver-queued hs s l v w = (
  ap ring_get_ordered (deliver-rows hs s l)
      ∙ ring_get_ordered-record_all (map call_of (rows hs s)) l w,
  ap (map timing_event) (ops-fifo (ops hs) s v)
      ∙ map-append timing_event (passed (ops hs) s) (contents (after (ops hs) s))
      ∙ ap₂ ◌++◌ (sym (rows-passed hs s))
          (ap (λ x. map timing_event (contents x)) (sym (deliver-after hs s l))),
)
