-- ===== src/Watchdog/Profiles.antt =====
-- src/totem_watchdog.c, `totem_dump_profiles`: which computer each profile holds, on the console. A
-- line is its parts; an address is `none` where ZMK has none, and `is_any` compares it with
-- BT_ADDR_LE_ANY.
use totem_zmk_config.Prelude.{ℕ, ◌+◌, Bool, true, List, [], ◌∷◌, ℤ, pos, int_eq, Option, none, some}

module _ {Address : Type 0} (is_any : Address → Bool) where
  pub record ProfileLine : Type 0 where
    pub index : ℕ
    pub active : Bool
    pub address : Option Address
    pub empty : Bool

  pub is_empty : Option Address → Bool
  is_empty none = true
  is_empty (some a) = is_any a

  -- The loop, from the profile `i` on; the list is ZMK's addresses of the profiles from there on.
  pub profile_lines : ℤ → ℕ → List (Option Address) → List ProfileLine
  profile_lines active i [] = []
  profile_lines active i (a ∷ as') =
      record { index = i; active = int_eq (pos i) active; address = a; empty = is_empty a }
      ∷ profile_lines active (i + 1) as'

  pub totem_dump_profiles : ℤ → List (Option Address) → List ProfileLine
  totem_dump_profiles active addresses = profile_lines active 0 addresses
