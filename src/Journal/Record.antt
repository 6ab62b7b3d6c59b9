-- ===== src/Journal/Record.antt =====
-- Sequences of `record_event` calls.
use totem_zmk_config.Prelude.{
  ℕ, ◌+◌, ◌-◌, ◌≡◌, refl, ap, sym, ◌∙◌, arith, Bool, true, false, List, [], ◌∷◌, ◌++◌, map, length,
  drop, length-append, append_assoc, append-nil, length-set, length-drop, drop-append, drop-drop,
  ◌≤◌,
}
use totem_zmk_config.Config.{ring_cap}
use totem_zmk_config.Event.{Event}
use totem_zmk_config.Journal.{
  Log, append, record_event, ring_get_ordered, schedule_persist_coalesced,
}
use totem_zmk_config.Journal.Ordered.{
  IsWf, contents, contents-append, ordered-contents, length-contents,
}

-- A call: the event, whether it asks for a flush, and the time at which it does.
abbrev pub Call : Type 0
Call = Event × Bool × ℕ

unfoldable pub record_all : List Call → Log → Log
record_all [] s = s
record_all ((e, persist, now) ∷ cs) s = record_all cs (record_event e persist now s).0

abbrev pub events : List Call → List Event
events = map λ c. c.0

-- The flush request changes neither the ring nor its indices.
pub append-IsWf : (s : Log) (e : Event) (persist : Bool) → IsWf s → IsWf (append e persist s).0
unfolding append
append-IsWf s e persist w = ground (arith, length-set s.ring s.ring_head e)

pub record_event-IsWf :
    (e : Event) (persist : Bool) (now : ℕ) (s : Log)
    → IsWf s
    → IsWf (record_event e persist now s).0
unfolding record_event
record_event-IsWf e persist now s w = ground (arith, length-set s.ring s.ring_head e)

pub schedule-request :
    (urgent : Bool) (now : ℕ) (s : Log)
    → (schedule_persist_coalesced urgent now s).0 ≡ record s { persist_requested = true }
unfolding schedule_persist_coalesced
schedule-request urgent now s = ground arith

pub contents-record_event :
    (e : Event) (persist : Bool) (now : ℕ) (s : Log)
    → contents (record_event e persist now s).0 ≡ contents (append e persist s).0
unfolding record_event
contents-record_event e true now s = ap contents (schedule-request _ now (append e true s).0)
contents-record_event e false now s = refl

-- The last `ring_cap` events of a list.
abbrev pub latest : List Event → List Event
latest es = drop (length es - ring_cap) es

pub latest_short : (xs : List Event) → length xs ≤ ring_cap → latest xs ≡ xs
latest_short xs h =
    let none_over : length xs - ring_cap ≡ 0 = omega arith in ap (λ k. drop k xs) none_over

pub latest-append : (xs ys : List Event) → latest (latest xs ++ ys) ≡ latest (xs ++ ys)
latest-append xs ys =
    let d = length xs - ring_cap in
    let merged : drop d xs ++ ys ≡ drop d (xs ++ ys) = sym (drop-append d xs ys (omega arith)) in
    ap latest merged
    ∙ drop-drop d (length (drop d (xs ++ ys)) - ring_cap) (xs ++ ys)
    ∙ ap (λ k. drop k (xs ++ ys)) (omega (arith, length-drop d (xs ++ ys), length-append xs ys))

latest-cons :
    (xs es : List Event) (e : Event)
    → length xs ≤ ring_cap
    → latest ((drop (length xs + 1 - ring_cap) xs ++ e ∷ []) ++ es) ≡ latest (xs ++ e ∷ es)
latest-cons xs es e h =
    let d = length xs + 1 - ring_cap in
    let merged : (drop d xs ++ e ∷ []) ++ es ≡ drop d (xs ++ e ∷ es) =
      append_assoc (drop d xs) (e ∷ []) es ∙ sym (drop-append d xs (e ∷ es) (omega arith)) in
    ap latest merged
    ∙ drop-drop d (length (drop d (xs ++ e ∷ es)) - ring_cap) (xs ++ e ∷ es)
    ∙ ap (λ k. drop k (xs ++ e ∷ es))
        (omega (arith, length-drop d (xs ++ e ∷ es), length-append xs (e ∷ es)))

contents-record_all :
    (cs : List Call) (s : Log)
    → IsWf s
    → contents (record_all cs s) ≡ latest (contents s ++ events cs)
unfolding record_all
contents-record_all [] s w = sym (
    ap latest (append-nil (contents s))
    ∙ latest_short (contents s) (omega (arith, length-contents s, w.count_in)))
contents-record_all ((e, persist, now) ∷ cs) s w =
    contents-record_all cs (record_event e persist now s).0 (record_event-IsWf e persist now s w)
    ∙ ap (λ xs. latest (xs ++ events cs))
        (contents-record_event e persist now s
          ∙ contents-append s e persist w
          ∙ ap (λ k. drop (k + 1 - ring_cap) (contents s) ++ e ∷ []) (sym (length-contents s)))
    ∙ latest-cons (contents s) (events cs) e (omega (arith, length-contents s, w.count_in))

-- In a well-formed log, whatever is recorded, with or without a request to save it, `ring_get_ordered` gives the events
-- that it gave before followed by the new ones, less the oldest of these where there are more
-- than `ring_cap`.
pub ring_get_ordered-record_all :
    (cs : List Call) (s : Log)
    → IsWf s
    → ring_get_ordered (record_all cs s) ≡ latest (ring_get_ordered s ++ events cs)
ring_get_ordered-record_all cs s w =
    rw (ordered-contents (record_all cs s), ordered-contents s) (contents-record_all cs s w)
