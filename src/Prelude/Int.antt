-- ===== src/Prelude/Int.antt =====
-- C's signed integers, and the casts between them and the unsigned bytes of a record.
use Prim.Native.Nat.{ℕ, zero, suc, ◌-◌, ◌%◌, ◌<◌}
use mathlib.Core.Path.{◌≡◌}
use mathlib.Core.Bool.{Bool, true, false}
use native.Mathlib.Omega.{arith}
use totem_zmk_config.Prelude.Tests.{◌==◌, if◌then◌else◌, ltb}

-- `negsuc n` is -(n + 1).
pub data ℤ : Type 0 where
  pos : ℕ → ℤ
  negsuc : ℕ → ℤ

abbrev pub minus_one : ℤ
minus_one = negsuc 0

-- `z < 0`
abbrev pub is_neg : ℤ → Bool
is_neg (pos n) = false
is_neg (negsuc n) = true

-- `a == b`
abbrev pub int_eq : ℤ → ℤ → Bool
int_eq (pos a) (pos b) = a == b
int_eq (negsuc a) (negsuc b) = a == b
int_eq (pos a) (negsuc b) = false
int_eq (negsuc a) (pos b) = false

-- `z != 0`
abbrev pub is_nonzero : ℤ → Bool
is_nonzero (pos zero) = false
is_nonzero (pos (suc n)) = true
is_nonzero (negsuc n) = true

-- `z < 0 ? -z : z`
abbrev pub magnitude : ℤ → ℕ
magnitude (pos n) = n
magnitude (negsuc n) = suc n

-- `(uint8_t)z`
abbrev pub as_uint8 : ℤ → ℕ
as_uint8 (pos n) = n % 256
as_uint8 (negsuc n) = 255 - n % 256

-- `(int8_t)u` for an unsigned `u`
abbrev pub as_int8 : ℕ → ℤ
as_int8 u = if ltb (u % 256) 128 then pos (u % 256) else negsuc (255 - u % 256)

-- `(int8_t)z`
abbrev pub int8 : ℤ → ℤ
int8 z = as_int8 (as_uint8 z)

-- A byte survives the trip through `int8_t`.
pub as_uint8-as_int8 : (u : ℕ) → u < 256 → as_uint8 (as_int8 u) ≡ u
as_uint8-as_int8 u h = ground arith

pub int_eq_refl : (z : ℤ) → int_eq z z ≡ true
int_eq_refl (pos n) = ground arith
int_eq_refl (negsuc n) = ground arith

pub int_eq→≡ : (a b : ℤ) → int_eq a b ≡ true → a ≡ b
int_eq→≡ (pos a) (pos b) h = ground arith
int_eq→≡ (negsuc a) (negsuc b) h = ground arith
int_eq→≡ (pos a) (negsuc b) h = ground arith
int_eq→≡ (negsuc a) (pos b) h = ground arith

-- So does a small number through a byte.
pub int8_small : (z : ℤ) → magnitude z < 128 → int8 z ≡ z
int8_small (pos n) h = ground arith
int8_small (negsuc n) h = ground arith
