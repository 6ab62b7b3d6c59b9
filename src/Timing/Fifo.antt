-- ===== src/Timing/Fifo.antt =====
-- The inbox is a queue.
use totem_zmk_config.Prelude.{
  ap₂, lt→ltb, ≢→==, min, ◌⊎◌, ℕ, zero, suc, ◌+◌, ◌-◌, ◌%◌, ◌≤◌, ◌<◌, ◌≡◌, ◌≢◌, refl, ap, subst,
  arith, List, [], ◌∷◌, ◌++◌, get_or, set, length, get_or-set_self, get_or-set_ne, length-set,
  length-replicate,
}
use totem_zmk_config.Timing.{
  TimingRecord, Inbox, timing_cap, no_record, initial, totem_diagnostic_timing_capture, drain_round,
}

-- The `k` records from `head` on, oldest first.
unfoldable pub queued : List TimingRecord → ℕ → ℕ → List TimingRecord
queued inbox head zero = []
queued inbox head (suc k) = get_or inbox head no_record ∷ queued inbox ((head + 1) % timing_cap) k

unfoldable pub contents : Inbox → List TimingRecord
contents s = queued s.timing_inbox s.timing_head s.timing_count

pub record IsInbox (s : Inbox) : Type 0 where
  pub storage : length s.timing_inbox ≡ timing_cap
  pub head_in : s.timing_head < timing_cap
  pub count_in : s.timing_count ≤ timing_cap
  pub dropped_in : s.timing_dropped ≤ 255

pub initial-IsInbox : IsInbox initial
initial-IsInbox = record {
  storage = length-replicate timing_cap no_record;
  head_in = omega arith;
  count_in = omega arith;
  dropped_in = omega arith;
}

pub capture-IsInbox :
    (r : TimingRecord) (s : Inbox) → IsInbox s → IsInbox (totem_diagnostic_timing_capture r s)
unfolding totem_diagnostic_timing_capture
capture-IsInbox r s v =
    ground (arith, length-set s.timing_inbox ((s.timing_head + s.timing_count) % timing_cap) r)

pub drain_round-IsInbox : (now : ℕ) (s : Inbox) → IsInbox s → IsInbox (drain_round now s).0
unfolding drain_round
drain_round-IsInbox now s v = ground arith

-- A write behind the last of `k` records, which do not fill the array, joins them at the end.
queued-set :
    (inbox : List TimingRecord) (head k p : ℕ) (r : TimingRecord)
    → length inbox ≡ timing_cap
    → head < timing_cap
    → k < timing_cap
    → p ≡ (head + k) % timing_cap
    → queued (set inbox p r) head (suc k) ≡ queued inbox head k ++ r ∷ []
unfolding queued
queued-set inbox head zero p r l h b e =
    let same : p ≡ head = omega arith in
    rw same (ap (λ x. x ∷ []) (get_or-set_self inbox head r no_record (omega arith)))
queued-set inbox head (suc k) p r l h b e =
    let other : p ≢ head = λ q. omega (arith, q) in
    ap₂ (λ x xs. x ∷ xs) (get_or-set_ne inbox p head r no_record other)
      (queued-set inbox ((head + 1) % timing_cap) k p r l (omega arith) (omega arith) (omega arith))

-- A record taken while there is room joins the end of the queue.
pub capture-contents :
    (r : TimingRecord) (s : Inbox)
    → IsInbox s
    → s.timing_count < timing_cap
    → contents (totem_diagnostic_timing_capture r s) ≡ contents s ++ r ∷ []
unfolding totem_diagnostic_timing_capture contents
capture-contents r s v h = rw (lt→ltb s.timing_count timing_cap h) (
    subst
      (λ n.
        queued (set s.timing_inbox ((s.timing_head + s.timing_count) % timing_cap) r) s.timing_head
          n
        ≡ queued s.timing_inbox s.timing_head s.timing_count ++ r ∷ [])
      {x = suc s.timing_count} (omega arith)
      (queued-set s.timing_inbox s.timing_head s.timing_count
        ((s.timing_head + s.timing_count) % timing_cap) r v.storage v.head_in h refl))

-- A full inbox keeps its records, and counts the one it refuses up to 255.
pub capture-full :
    (r : TimingRecord) (s : Inbox)
    → timing_cap ≤ s.timing_count
    → (contents (totem_diagnostic_timing_capture r s) ≡ contents s)
      × ((totem_diagnostic_timing_capture r s).timing_dropped ≡ min (s.timing_dropped + 1) 255
          ⊎ (255 < s.timing_dropped))
unfolding totem_diagnostic_timing_capture contents
capture-full r s h = ground arith

queued-step :
    (inbox : List TimingRecord) (head k : ℕ)
    → k ≢ 0
    → queued inbox head k
      ≡ get_or inbox head no_record ∷ queued inbox ((head + 1) % timing_cap) (k - 1)
unfolding queued
queued-step inbox head zero h = absurd (h refl)
queued-step inbox head (suc k) h =
    ap (λ n. get_or inbox head no_record ∷ queued inbox ((head + 1) % timing_cap) n) {x = k}
      (omega arith)

-- A round passes on the oldest record of a queue that is not empty.
pub drain_round-contents :
    (now : ℕ) (s : Inbox)
    → s.timing_count ≢ 0
    → contents s ≡ (drain_round now s).1 ++ contents (drain_round now s).0
unfolding drain_round contents
drain_round-contents now s h =
    rw (≢→== s.timing_count 0 h) (queued-step s.timing_inbox s.timing_head s.timing_count h)

-- Of an empty queue, a round passes on the number of refused records, if there were any.
pub drain_round-empty :
    (now : ℕ) (s : Inbox)
    → s.timing_count ≡ 0
    → ((drain_round now s).0.timing_count ≡ 0) × ((drain_round now s).0.timing_dropped ≡ 0)
unfolding drain_round
drain_round-empty now s h = ground arith
