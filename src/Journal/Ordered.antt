-- ===== src/Journal/Ordered.antt =====
-- `ring_get_ordered` gives the last `ring_cap` events in the order of their arrival.
use totem_zmk_config.Prelude.{
  ℕ, zero, suc, ◌+◌, ◌-◌, ◌%◌, ◌≤◌, ◌<◌, ◌≡◌, refl, ap, ◌∙◌, arith, List, [], ◌∷◌, ◌++◌, length,
  get_or, set, drop, get_or-set_self, get_or-set_ne, Bool, sym, ltb, Bool-cases, inl, inr,
}
use totem_zmk_config.Config.{ring_cap}
use totem_zmk_config.Event.{Event, zero_event}
use totem_zmk_config.Journal.{Log, read_from, ring_get_ordered, oldest, append}

-- A write outside the slots that are read is not seen.
read_from-set :
    (ring : List Event) (start i n k w : ℕ) (e : Event)
    → i + n ≤ k
    → k < ring_cap
    → w ≡ (start + k) % ring_cap
    → read_from (set ring w e) start i n ≡ read_from ring start i n
unfolding read_from
read_from-set ring start i zero k w e h hk hw = refl
read_from-set ring start i (suc n) k w e h hk hw = ground (
  arith,
  get_or-set_ne ring w ((start + i) % ring_cap) e zero_event,
  read_from-set ring start (i + 1) n k w e,
)

-- The last slot that is read stands at the end.
read_from_snoc :
    (ring : List Event) (start i n : ℕ)
    → read_from ring start i (suc n)
      ≡ read_from ring start i n ++ get_or ring ((start + (i + n)) % ring_cap) zero_event ∷ []
unfolding read_from
read_from_snoc ring start i zero = ground arith
read_from_snoc ring start i (suc n) = ground (arith, read_from_snoc ring start (i + 1) n)

-- Reading from the next slot on.
read_from_shift :
    (ring : List Event) (start i n : ℕ)
    → read_from ring start (i + 1) n ≡ read_from ring ((start + 1) % ring_cap) i n
unfolding read_from
read_from_shift ring start i zero = refl
read_from_shift ring start i (suc n) = ground (arith, read_from_shift ring start (i + 1) n)

pub length-read_from : (ring : List Event) (start i n : ℕ) → length (read_from ring start i n) ≡ n
unfolding read_from
length-read_from ring start i zero = refl
length-read_from ring start i (suc n) = ap suc (length-read_from ring start (i + 1) n)

-- Writing the slot after those that are read puts the event behind them.
read_from_room :
    (ring : List Event) (start n w : ℕ) (e : Event)
    → length ring ≡ ring_cap
    → n < ring_cap
    → w ≡ (start + n) % ring_cap
    → read_from (set ring w e) start 0 (suc n) ≡ read_from ring start 0 n ++ e ∷ []
read_from_room ring start n w e len hn hw = ground (
  arith,
  read_from-set ring start 0 n n w e (omega arith) hn hw,
  read_from_snoc (set ring w e) start 0 n,
  get_or-set_self ring w e zero_event (omega arith),
)

-- In a full ring that slot is the oldest one, and the others keep their order.
read_from_full :
    (ring : List Event) (start n : ℕ) (e : Event)
    → length ring ≡ ring_cap
    → start < ring_cap
    → suc n ≡ ring_cap
    → read_from (set ring start e) ((start + 1) % ring_cap) 0 (suc n)
      ≡ drop 1 (read_from ring start 0 (suc n)) ++ e ∷ []
read_from_full ring start n e len hh hn =
    read_from_room ring ((start + 1) % ring_cap) n start e len (omega arith) (omega arith)
    ∙ ap (λ xs. xs ++ e ∷ []) (sym (unfold read_from in read_from_shift ring start 0 n))

pub record IsWf (s : Log) : Type 0 where
  pub storage : length s.ring ≡ ring_cap
  pub head_in : s.ring_head < ring_cap
  pub count_in : s.ring_count ≤ ring_cap

-- The view without the test for an empty ring.
abbrev pub contents : Log → List Event
contents s = read_from s.ring (oldest s) 0 s.ring_count

pub length-contents : (s : Log) → length (contents s) ≡ s.ring_count
length-contents s = length-read_from s.ring (oldest s) 0 s.ring_count

pub ordered-contents : (s : Log) → ring_get_ordered s ≡ contents s
unfolding ring_get_ordered read_from
ordered-contents s = ground arith

-- After `append` the view has the new event at its end, and no longer the oldest one if the ring
-- was full.
pub contents-append :
    (s : Log) (e : Event) (persist : Bool)
    → IsWf s
    → contents (append e persist s).0 ≡ drop (s.ring_count + 1 - ring_cap) (contents s) ++ e ∷ []
unfolding append
contents-append s e persist w = elim (Bool-cases (ltb s.ring_count ring_cap)) [
  | inl room ↦ ground (arith, read_from_room s.ring (oldest s) s.ring_count s.ring_head e w.storage)
  | inr full ↦ ground (arith, read_from_full s.ring s.ring_head 1023 e w.storage)
]
