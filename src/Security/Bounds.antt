-- ===== src/Security/Bounds.antt =====
-- src/security_timing.c, `encryption_observed`: it reads only inside the buffer.
use totem_zmk_config.Prelude.{
  ℕ, zero, suc, ◌+◌, ◌*◌, ◌<◌, ◌≤◌, ◌≡◌, refl, arith, Bool, true, false, ◌&&◌, ◌||◌, not, List, [],
  ◌∷◌, length, ltb, leb, ◌==◌, if◌then◌else◌, Option, none, some, Bool-cases, inl, inr, ge_of_ltb,
}
use totem_zmk_config.Timing.{TimingRecord}
use totem_zmk_config.Security.Host.{
  Hci, Buf, ◌>>=◌, read, read_le16, is_ltk_request, ltk_observed, change_row, change_observed,
  event_observed, encryption_observed,
}

-- The layout: the code and the length stand in the header, and the fields in their structures.
pub record IsLayout (hci : Hci) : Type 0 where
  pub evt_in : hci.evt_at < hci.header_size
  pub len_in : hci.len_at < hci.header_size
  pub ltk_in : 2 ≤ hci.ltk_size
  pub handle_in_refresh : hci.handle_at + 2 ≤ hci.refresh_size
  pub handle_in_change : hci.handle_at + 2 ≤ hci.change_size
  pub encrypt_in : hci.encrypt_at < hci.change_size

-- A result, with at most one row.
abbrev pub Returns : Option (List TimingRecord) → Type 0
Returns o = (rs : List TimingRecord) × (o ≡ some rs) × (length rs ≤ 1)

read-some : (bytes : List ℕ) (i : ℕ) → i < length bytes → (b : ℕ) × (read bytes i ≡ some b)
unfolding read
read-some [] i h = absurd (omega arith)
read-some (b ∷ bs) zero h = (b, refl)
read-some (b ∷ bs) (suc i) h = read-some bs i (omega arith)

-- A read inside the buffer goes on.
read-bind :
    (bytes : List ℕ) (i : ℕ) (f : ℕ → Option (List TimingRecord))
    → i < length bytes
    → ((b : ℕ) → Returns (f b))
    → Returns (read bytes i >>= f)
read-bind bytes i f h k = let (b, e) = read-some bytes i h in rw e (k b)

le16-bind :
    (bytes : List ℕ) (i : ℕ) (f : ℕ → Option (List TimingRecord))
    → i + 1 < length bytes
    → ((handle : ℕ) → Returns (f handle))
    → Returns (read_le16 bytes i >>= f)
le16-bind bytes i f h k =
    let (low, e) = read-some bytes i (omega arith) in
    let (high, e') = read-some bytes (i + 1) h in rw (e, e') (k (low + 256 * high))

long_enough :
    (len required size bytes : ℕ)
    → ltb len required || ltb bytes size ≡ false
    → (required ≤ len) × (size ≤ bytes)
long_enough len required size bytes h = ground arith

and_leb : (b : Bool) (x y : ℕ) → b && leb x y ≡ true → x ≤ y
and_leb b x y h = ground arith

or_ltb : (b : Bool) (x y : ℕ) → b || ltb x y ≡ false → y ≤ x
or_ltb b x y h = ground arith

module _ (hci : Hci) (layout : IsLayout hci) where
  ltk-Returns :
      (now : ℕ) (bytes : List ℕ) (stage : ℕ)
      → hci.header_size + hci.meta_size + 1 < length bytes
      → Returns (ltk_observed hci now bytes stage)
  unfolding ltk_observed
  ltk-Returns now bytes stage h =
      le16-bind bytes (hci.header_size + hci.meta_size) _ h (λ handle. (_, refl, omega arith))

  row-Returns :
      (now : ℕ) (bytes : List ℕ) (refresh : Bool) (stage : ℕ)
      → hci.header_size + (if refresh then hci.refresh_size else hci.change_size) ≤ length bytes
      → Returns (change_row hci now bytes refresh stage)
  unfolding change_row
  row-Returns now bytes true stage h =
      le16-bind bytes (hci.header_size + hci.handle_at) _ (omega (arith, layout.handle_in_refresh))
        (λ handle.
          read-bind bytes hci.header_size _ (omega (arith, layout.handle_in_refresh))
            (λ status. (_, refl, omega arith)))
  row-Returns now bytes false stage h =
      le16-bind bytes (hci.header_size + hci.handle_at) _ (omega (arith, layout.handle_in_change))
        (λ handle.
          read-bind bytes hci.header_size _ (omega (arith, layout.handle_in_change)) (λ status.
            read-bind bytes (hci.header_size + hci.encrypt_at) _ (omega (arith, layout.encrypt_in))
              (λ enabled. (_, refl, omega arith))))

  none_seen : Returns (some [])
  none_seen = ([], refl, omega arith)

  change-Returns :
      (now : ℕ) (bytes : List ℕ) (evt len stage : ℕ)
      → Returns (change_observed hci now bytes evt len stage)
  unfolding change_observed
  change-Returns now bytes evt len stage =
      let refresh = evt == hci.key_refresh in
      let required = if refresh then hci.refresh_size else hci.change_size in
      elim (Bool-cases (not (evt == hci.encrypt_change) && not refresh)) [
        | inl other ↦ rw other none_seen
        | inr wanted ↦
            elim (Bool-cases (ltb len required || ltb (length bytes) (hci.header_size + len))) [
              | inl short ↦ rw (wanted, short) none_seen
              | inr enough ↦
                  let fits =
                    long_enough len required (hci.header_size + len) (length bytes) enough in
                  rw (wanted, enough)
                    (row-Returns now bytes refresh stage (omega (arith, fits.0, fits.1)))
            ]
      ]

  ltk_cases :
      (bytes : List ℕ) (evt len : ℕ)
      → hci.header_size + len ≤ length bytes
      → (b : Bool) × (is_ltk_request hci bytes evt len ≡ some b)
        × (b ≡ true → hci.meta_size + hci.ltk_size ≤ len)
  unfolding is_ltk_request
  ltk_cases bytes evt len h =
      elim (Bool-cases (evt == hci.le_meta_event && leb (hci.meta_size + hci.ltk_size) len)) [
        | inl long ↦
            let size = and_leb (evt == hci.le_meta_event) (hci.meta_size + hci.ltk_size) len long in
            let (b, e) = read-some bytes hci.header_size (omega (arith, size, layout.ltk_in)) in
            (b == hci.ltk_request, rw (long, e) refl, λ _. size)
        | inr short ↦ (false, rw short refl, λ e. absurd cc)
      ]

  event-Returns :
      (now : ℕ) (bytes : List ℕ) (evt len stage : ℕ)
      → Returns (event_observed hci now bytes evt len stage)
  unfolding event_observed
  event-Returns now bytes evt len stage =
      elim (Bool-cases (ltb (length bytes) (hci.header_size + len))) [
        | inl short ↦ rw short none_seen
        | inr enough ↦
            let h = ge_of_ltb (length bytes) (hci.header_size + len) enough in
            let (b, e, long) = ltk_cases bytes evt len h in
            elim (Bool-cases b) [
              | inl yes_ltk ↦
                  rw (enough, e, yes_ltk)
                    (ltk-Returns now bytes stage (omega (arith, h, long yes_ltk, layout.ltk_in)))
              | inr no_ltk ↦ rw (enough, e, no_ltk) (change-Returns now bytes evt len stage)
            ]
      ]

  -- Whatever the buffer holds, the observer of encryption events reads only inside of it, where the
  -- events' structures are laid out as Zephyr documents, and it records at most one row.
  pub encryption_observed-Returns :
      (now : ℕ) (rx : Bool) (buf : Option Buf) (stage : ℕ)
      → Returns (encryption_observed hci now rx buf stage)
  unfolding encryption_observed
  encryption_observed-Returns now rx none stage = none_seen
  encryption_observed-Returns now rx (some buf) stage =
      elim (Bool-cases (not rx || not buf.is_event || ltb (length buf.bytes) hci.header_size)) [
        | inl other ↦ rw other none_seen
        | inr event ↦
            let h = or_ltb (not rx || not buf.is_event) (length buf.bytes) hci.header_size event in
            rw event (
              read-bind buf.bytes hci.evt_at _ (omega (arith, h, layout.evt_in)) (λ evt.
                read-bind buf.bytes hci.len_at _ (omega (arith, h, layout.len_in))
                  (λ len. event-Returns now buf.bytes evt len stage)))
      ]
