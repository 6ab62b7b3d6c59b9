-- ===== src/Journal/Pending.antt =====
-- What recording does to the events that wait for flash.
use totem_zmk_config.Prelude.{
  ℕ, ◌+◌, ◌-◌, ◌≤◌, ◌<◌, ◌≡◌, ◌^◌, refl, ap, sym, ◌∙◌, arith, Bool, List, [], ◌∷◌, ◌++◌, length,
  drop, min, length-append, length-drop, drop-append, drop-drop, append-nil, append_assoc, true,
  false,
}
use totem_zmk_config.Config.{ring_cap}
use totem_zmk_config.Event.{Event}
use totem_zmk_config.Journal.{Log, append, record_event}
use totem_zmk_config.Journal.Ordered.{contents, contents-append, length-contents}
use totem_zmk_config.Journal.Record.{
  Call, record_all, events, latest, latest-append, latest_short, schedule-request,
}
use totem_zmk_config.Journal.Sequence.{IsSound, backlog, pending, append-IsSound, length-pending}

-- The arithmetic of `pending-append`, over any list.
drop-latest :
    (xs : List Event) (e : Event) (b d k : ℕ)
    → d ≡ length xs + 1 - ring_cap
    → b ≤ length xs
    → k + d ≤ length xs
    → d + k ≡ (length xs - b) + (b + 1 - ring_cap)
    → drop k (drop d xs ++ e ∷ []) ≡ latest (drop (length xs - b) xs ++ e ∷ [])
drop-latest xs e b d k hd hb hk h =
    drop-append k (drop d xs) (e ∷ []) (omega (arith, length-drop d xs))
    ∙ ap (λ ys. ys ++ e ∷ []) (drop-drop d k xs ∙ over ∙ sym (drop-drop (length xs - b) over_by xs))
    ∙ sym (
        drop-append over_by (drop (length xs - b) xs) (e ∷ [])
          (omega (arith, length-drop (length xs - b) xs, sized)))
    ∙ ap (λ j. drop j (drop (length xs - b) xs ++ e ∷ [])) (omega (arith, sized))
  where
    over_by : ℕ
    over_by = b + 1 - ring_cap

    over : drop (d + k) xs ≡ drop ((length xs - b) + over_by) xs
    over = ap (λ j. drop j xs) h

    sized : length (drop (length xs - b) xs ++ e ∷ []) ≡ b + 1
    sized =
        omega
          (arith, length-append (drop (length xs - b) xs) (e ∷ []), length-drop (length xs - b) xs)

pub record Counted (s t : Log) : Type 0 where
  pub count : t.ring_count ≡ min (s.ring_count + 1) ring_cap
  pub seq : t.ring_seq ≡ s.ring_seq + 1
  pub saved : t.persisted_event_seq ≡ s.persisted_event_seq

append-Counted :
    (s : Log) (e : Event) (persist : Bool)
    → IsSound s
    → s.ring_seq + 2 < 2 ^ 32
    → Counted s (append e persist s).0
unfolding append
append-Counted s e persist v h = ground arith

-- One more event waits, and the oldest of more than `ring_cap` no longer does.
pub pending-append :
    (s : Log) (e : Event) (persist : Bool)
    → IsSound s
    → s.ring_seq + 2 < 2 ^ 32
    → pending (append e persist s).0 ≡ latest (pending s ++ e ∷ [])
pending-append s e persist v h =
    let t = (append e persist s).0 in
    let n = append-Counted s e persist v h in
    let xs = contents s in
    let size : length xs ≡ s.ring_count = length-contents s in
    ap (λ ys. drop (t.ring_count - backlog t) ys) (contents-append s e persist v.wf)
    ∙ drop-latest xs e (backlog s) (s.ring_count + 1 - ring_cap) (t.ring_count - backlog t)
        (omega arith) (omega arith) (omega (arith, n, v.wf)) (omega (arith, n, v.wf))
    ∙ ap (λ k. latest (drop (k - backlog s) xs ++ e ∷ [])) size

pending-record_event :
    (e : Event) (persist : Bool) (now : ℕ) (s : Log)
    → pending (record_event e persist now s).0 ≡ pending (append e persist s).0
unfolding record_event
pending-record_event e true now s = ap pending (schedule-request _ now (append e true s).0)
pending-record_event e false now s = refl

requested-IsSound : (s : Log) → IsSound s → IsSound (record s { persist_requested = true })
requested-IsSound s v = ground arith

-- `record_event` keeps the invariant and takes the next number, while there is one.
pub record_event-IsSound :
    (e : Event) (persist : Bool) (now : ℕ) (s : Log)
    → s.ring_seq + 2 < 2 ^ 32
    → IsSound s
    → IsSound (record_event e persist now s).0
      × ((record_event e persist now s).0.ring_seq ≡ s.ring_seq + 1)
unfolding record_event
record_event-IsSound e true now s h v = rw (schedule-request _ now (append e true s).0) (
  requested-IsSound (append e true s).0 (append-IsSound s e true h v),
  (append-Counted s e true v h).seq,
)
record_event-IsSound e false now s h v =
    (append-IsSound s e false h v, (append-Counted s e false v h).seq)

-- In a sound log whose 32-bit numbers last, recording takes nothing from the events that wait to be
-- saved: they are still there, in order and followed by the new ones, less the oldest of these where
-- there are more than `ring_cap`.
pub pending-record_all :
    (cs : List Call) (s : Log)
    → IsSound s
    → s.ring_seq + 1 + length cs < 2 ^ 32
    → pending (record_all cs s) ≡ latest (pending s ++ events cs)
unfolding record_all
pending-record_all [] s v h = sym (
    ap latest (append-nil (pending s))
    ∙ latest_short (pending s) (omega (arith, length-pending s, v.wf)))
pending-record_all ((e, persist, now) ∷ cs) s v h =
    let (v', n) = record_event-IsSound e persist now s (omega arith) v in
    pending-record_all cs (record_event e persist now s).0 v' (omega arith)
    ∙ ap (λ xs. latest (xs ++ events cs))
        (pending-record_event e persist now s ∙ pending-append s e persist v (omega arith))
    ∙ latest-append (pending s ++ e ∷ []) (events cs)
    ∙ ap latest (append_assoc (pending s) (e ∷ []) (events cs))
