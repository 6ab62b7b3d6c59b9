-- ===== src/Handoff/Counts.antt =====
-- The counters of an armed connection, over all its events.
use totem_zmk_config.Prelude.{
  ℕ, ◌+◌, length-append, ◌<◌, ◌≡◌, refl, ap, ap₂, ◌∙◌, arith, Bool, true, false, ◌&&◌, ◌||◌, not,
  List, [], ◌∷◌, ◌++◌, length, get_or-set_self, length-set, min, bool_to_nat, All,
}
use totem_zmk_config.Timing.{TimingRecord}
use totem_zmk_config.Handoff.{
  RadioStats, EventDone, is_valid, add_count, count_event, done_radio, ull_conn_done, radio_at, arm,
  zero_radio,
}

-- The sum of a number over the events.
unfoldable pub total : (EventDone → ℕ) → List EventDone → ℕ
total f [] = 0
total f (e ∷ es) = f e + total f es

abbrev pub any_invalid : List EventDone → Bool
any_invalid [] = false
any_invalid (e ∷ es) = not (is_valid e) || any_invalid es

-- All events of one connection, at one uptime each.
pub record Done : Type 0 where
  pub at : ℕ
  pub event : EventDone

unfoldable pub done_all : List Done → RadioStats → RadioStats
done_all [] r = r
done_all (d ∷ ds) r = done_all ds (done_radio d.at d.event r)

abbrev pub events_of : List Done → List EventDone
events_of [] = []
events_of (d ∷ ds) = d.event ∷ events_of ds

-- A counter with the value `t`, as far as 16 bits go.
pub add_count-min : (t c : ℕ) → c < 4294901760 → add_count (min t 65535) c ≡ min (t + c) 65535
unfolding add_count
add_count-min t c h = ground arith

-- The counters of `r` stand for the totals `t` so far.
pub record Counted (done bad aborted packets : ℕ) (r : RadioStats) : Type 0 where
  pub is_armed : r.armed ≡ true
  pub done_count : r.done ≡ min done 65535
  pub bad_count : r.bad ≡ min bad 65535
  pub aborted_count : r.aborted ≡ min aborted 65535
  pub packet_count : r.rx_packets ≡ min packets 65535

abbrev pub bad_one : EventDone → ℕ
bad_one e = bool_to_nat (not (is_valid e))

abbrev pub aborted_one : EventDone → ℕ
aborted_one e = bool_to_nat e.is_aborted

abbrev pub packets : EventDone → ℕ
packets e = e.trx_cnt

done-Counted :
    (d b a p now : ℕ) (e : EventDone) (r : RadioStats)
    → e.trx_cnt < 65536
    → Counted d b a p r
    → Counted (d + 1) (b + bad_one e) (a + aborted_one e) (p + e.trx_cnt) (done_radio now e r)
unfolding done_radio count_event
done-Counted d b a p now e r h v = grind (arith, add_count-min)

done_all-from :
    (d b a p : ℕ) (ds : List Done) (r : RadioStats)
    → All (λ x. x.event.trx_cnt < 65536) ds
    → Counted d b a p r
    → Counted
        (d + length ds)
        (b + total bad_one (events_of ds))
        (a + total aborted_one (events_of ds))
        (p + total packets (events_of ds))
        (done_all ds r)
unfolding total done_all
done_all-from d b a p [] r h v = ground (arith, v.is_armed)
done_all-from d b a p (x ∷ ds) r h v =
    let next = done_radio x.at x.event r in
    let rest =
      done_all-from (d + 1) (b + bad_one x.event) (a + aborted_one x.event) (p + x.event.trx_cnt) ds
        next h.1 (done-Counted d b a p x.at x.event r h.0 v) in
    ground (arith, rest.is_armed)

-- From the request to leave a computer on, with fewer than 65536 packets in each connection event,
-- the counters of its link are the numbers of connection
-- events, of those without a valid packet and of those aborted, and the number of packets, each
-- exact up to 65535 and then stopped there.
pub done_all-Counted :
    (ds : List Done) (previous : RadioStats)
    → All (λ x. x.event.trx_cnt < 65536) ds
    → Counted
        (length ds)
        (total bad_one (events_of ds))
        (total aborted_one (events_of ds))
        (total packets (events_of ds))
        (done_all ds (arm previous))
unfolding arm
done_all-Counted ds previous h =
    ground (arith, done_all-from 0 0 0 0 ds (arm previous) h ground arith)

-- The events of one handle on the whole array, with the rows they cause.
unfoldable pub ull_conn_done_all :
    ℕ → List Done → List RadioStats → List RadioStats × List TimingRecord
ull_conn_done_all handle [] radios = (radios, [])
ull_conn_done_all handle (d ∷ ds) radios =
    let (radios', rows) = ull_conn_done d.at handle d.event radios in
    let (radios'', rest) = ull_conn_done_all handle ds radios' in (radios'', rows ++ rest)

done-at :
    (now handle : ℕ) (e : EventDone) (radios : List RadioStats)
    → handle < length radios
    → e.peripheral ≡ true
    → (radio_at (ull_conn_done now handle e radios).0 handle
        ≡ done_radio now e (radio_at radios handle))
      × (length (ull_conn_done now handle e radios).0 ≡ length radios)
unfolding ull_conn_done
done-at now handle e radios h p =
    let written = done_radio now e (radio_at radios handle) in
    ground
      (arith, get_or-set_self radios handle written zero_radio h, length-set radios handle written)

done_radio-flags :
    (now : ℕ) (e : EventDone) (r : RadioStats)
    → ((done_radio now e r).armed ≡ r.armed)
      × (r.armed ≡ true → (done_radio now e r).first_bad ≡ (r.first_bad || not (is_valid e)))
unfolding done_radio count_event
done_radio-flags now e r = ground arith

done-rows :
    (now handle : ℕ) (e : EventDone) (radios : List RadioStats)
    → handle < length radios
    → e.peripheral ≡ true
    → (radio_at radios handle).armed ≡ true
    → length (ull_conn_done now handle e radios).1
      ≡ bool_to_nat (not (is_valid e) && not (radio_at radios handle).first_bad)
unfolding ull_conn_done
done-rows now handle e radios h p a = ground arith

first_then_rest :
    (bad later seen : Bool)
    → bool_to_nat (bad && not seen) + bool_to_nat (later && not (seen || bad))
      ≡ bool_to_nat ((bad || later) && not seen)
first_then_rest bad later seen = ground arith

-- Over the connection events of an armed link to a computer, one row is recorded if any of them is
-- without a valid packet and none was noted before, and none otherwise.
pub rows-first_bad :
    (handle : ℕ) (ds : List Done) (radios : List RadioStats)
    → handle < length radios
    → All (λ d. d.event.peripheral ≡ true) ds
    → (radio_at radios handle).armed ≡ true
    → length (ull_conn_done_all handle ds radios).1
      ≡ bool_to_nat (any_invalid (events_of ds) && not (radio_at radios handle).first_bad)
unfolding ull_conn_done_all
rows-first_bad handle [] radios h p a = refl
rows-first_bad handle (d ∷ ds) radios h p a =
    let (radios', rows) = ull_conn_done d.at handle d.event radios in
    let here = done-at d.at handle d.event radios h p.0 in
    let flags = done_radio-flags d.at d.event (radio_at radios handle) in
    let rest =
      rows-first_bad handle ds radios' (omega (arith, here.1, h)) p.1
        (ap (λ r. r.armed) here.0 ∙ flags.0 ∙ a) in
    let seen = ap (λ r. r.first_bad) here.0 ∙ flags.1 a in
    length-append rows (ull_conn_done_all handle ds radios').1
    ∙ ap₂ (λ m n. m + n) (done-rows d.at handle d.event radios h p.0 a)
        (rest ∙ ap (λ b. bool_to_nat (any_invalid (events_of ds) && not b)) seen)
    ∙ first_then_rest (not (is_valid d.event)) (any_invalid (events_of ds))
        (radio_at radios handle).first_bad
