-- ===== src/Watchdog/Cause.antt =====
-- Reading back the reset cause from its one byte.
use totem_zmk_config.Prelude.{
  ℕ, ◌+◌, ◌*◌, ◌/◌, ◌%◌, ◌<◌, ◌≤◌, ◌≡◌, arith, Bool, true, false, ◌&&◌, not, ◌==◌, bool_to_nat, ◌^◌,
}
use totem_zmk_config.Watchdog.{Masks, has_bits, or_flag, known_flags, compress_reset_cause}

or_flag_lem : (b : Bool) (flag out : ℕ) → or_flag b flag out ≡ out + flag * bool_to_nat b
unfolding or_flag
or_flag_lem true flag out = omega arith
or_flag_lem false flag out = omega arith

bit_bound : (b : Bool) → bool_to_nat b ≤ 1
bit_bound true = omega arith
bit_bound false = omega arith

-- The seven flags that the hardware reports, as one number.
abbrev sum_of : Masks → ℕ → ℕ
sum_of m cause =
    bool_to_nat (has_bits cause m.pin)
    + 2 * bool_to_nat (has_bits cause m.software)
    + 4 * bool_to_nat (has_bits cause m.watchdog)
    + 8 * bool_to_nat (has_bits cause m.brownout)
    + 16 * bool_to_nat (has_bits cause m.por)
    + 32 * bool_to_nat (has_bits cause m.debug)
    + 64 * bool_to_nat (has_bits cause m.low_power_wake)

known_flags-sum_of : (m : Masks) (cause : ℕ) → known_flags m cause ≡ sum_of m cause
unfolding known_flags
known_flags-sum_of m cause = simp (or_flag_lem) (omega arith)

compress-sum_of :
    (m : Masks) (cause : ℕ)
    → compress_reset_cause m cause
      ≡ sum_of m cause + 128 * bool_to_nat (not (cause == 0) && known_flags m cause == 0)
unfolding compress_reset_cause
compress-sum_of m cause = omega (
  arith,
  or_flag_lem (not (cause == 0) && known_flags m cause == 0) 128 (known_flags m cause),
  known_flags-sum_of m cause,
)

zero_cause : (m : Masks) (cause : ℕ) → compress_reset_cause m cause ≡ 0 → cause ≡ 0
unfolding compress_reset_cause or_flag
zero_cause m cause h = ground arith

-- The bit `k` of a byte.
abbrev pub bit : ℕ → ℕ → ℕ
bit k byte = byte / 2 ^ k % 2

bits_of_sum :
    (b0 b1 b2 b3 b4 b5 b6 b7 : Bool) (n : ℕ)
    → n
      ≡ bool_to_nat b0
        + 2 * bool_to_nat b1
        + 4 * bool_to_nat b2
        + 8 * bool_to_nat b3
        + 16 * bool_to_nat b4
        + 32 * bool_to_nat b5
        + 64 * bool_to_nat b6
        + 128 * bool_to_nat b7
    → (n < 256)
      × (bit 0 n ≡ bool_to_nat b0)
      × (bit 1 n ≡ bool_to_nat b1)
      × (bit 2 n ≡ bool_to_nat b2)
      × (bit 3 n ≡ bool_to_nat b3)
      × (bit 4 n ≡ bool_to_nat b4)
      × (bit 5 n ≡ bool_to_nat b5)
      × (bit 6 n ≡ bool_to_nat b6)
bits_of_sum b0 b1 b2 b3 b4 b5 b6 b7 n h = omega (
  arith,
  bit_bound b0,
  bit_bound b1,
  bit_bound b2,
  bit_bound b3,
  bit_bound b4,
  bit_bound b5,
  bit_bound b6,
  bit_bound b7,
)

-- The compressed reset cause keeps what the hardware says: it fits a byte, each of its seven lower
-- bits is set exactly if the cause has one of the bits of its mask, and it is 0 only if the cause is
-- 0, so that a cause with unknown bits alone is not lost.
compress-bits :
    (m : Masks) (cause : ℕ)
    → let flags = compress_reset_cause m cause in
      (flags < 256)
      × (bit 0 flags ≡ bool_to_nat (has_bits cause m.pin))
      × (bit 1 flags ≡ bool_to_nat (has_bits cause m.software))
      × (bit 2 flags ≡ bool_to_nat (has_bits cause m.watchdog))
      × (bit 3 flags ≡ bool_to_nat (has_bits cause m.brownout))
      × (bit 4 flags ≡ bool_to_nat (has_bits cause m.por))
      × (bit 5 flags ≡ bool_to_nat (has_bits cause m.debug))
      × (bit 6 flags ≡ bool_to_nat (has_bits cause m.low_power_wake))
      × (flags ≡ 0 → cause ≡ 0)
compress-bits m cause =
    let bits =
      bits_of_sum (has_bits cause m.pin) (has_bits cause m.software) (has_bits cause m.watchdog)
        (has_bits cause m.brownout) (has_bits cause m.por) (has_bits cause m.debug)
        (has_bits cause m.low_power_wake) (not (cause == 0) && known_flags m cause == 0)
        (compress_reset_cause m cause) (compress-sum_of m cause) in
    (bits.0, bits.1, bits.2, bits.3, bits.4, bits.5, bits.6, bits.7, zero_cause m cause)
