-- ===== src/Boot.antt =====
-- src/boot_diagnostics.c: the boot counter, the marker in retained RAM and what the last boot saved.
-- The functions that record events return them, in order; `Journal.Restore` records them.
pub mod Laws
mod Tests
use totem_zmk_config.Prelude.{
  ℕ, ◌+◌, ◌-◌, ◌/◌, ◌%◌, ◌^◌, Bool, true, false, ◌&&◌, ◌||◌, not, List, [], ◌∷◌, ◌==◌,
  if◌then◌else◌, ℤ, pos, minus_one, is_neg, is_nonzero, int_eq, as_int8, bool_to_nat, Option, none,
  some,
}
use totem_zmk_config.Hevt.{Hevt}
use totem_zmk_config.Event.{Event, event}

-- The value under the settings key "tboot/count".
pub record Counter : Type 0 where
  pub count : ℕ  -- uint32
  pub crc : ℕ  -- uint32

pub record Boot : Type 0 where
  pub ram_magic : ℕ  -- uint32, `__noinit`
  pub ram_inverse : ℕ  -- uint32, `__noinit`
  pub counter : Counter
  pub raw_reset : ℕ  -- uint32
  pub raw_available : ℕ
  pub ram_survived : ℕ
  pub counter_status : ℕ
  pub counter_pending : Bool
  pub boot_loaded : Bool
  pub reset_read_result : ℤ
  pub fault_status : ℕ
  pub saved_previous_uptime : ℕ  -- uint32
  pub saved_previous_profile : ℤ  -- int8
  pub saved_previous_endpoint : ℤ  -- int8

-- The static variables at power-on; what the retained RAM holds is not known.
abbrev pub initial : ℕ → ℕ → Boot
initial magic inverse = record {
  ram_magic = magic;
  ram_inverse = inverse;
  counter = record { count = 0; crc = 0 };
  raw_reset = 0;
  raw_available = 0;
  ram_survived = 0;
  counter_status = 0;
  counter_pending = false;
  boot_loaded = false;
  reset_read_result = pos 0;
  fault_status = 0;
  saved_previous_uptime = 0;
  saved_previous_profile = minus_one;
  saved_previous_endpoint = minus_one;
}

abbrev pub boot_ram_magic : ℕ
boot_ram_magic = 0x5442524d

-- `~BOOT_RAM_MAGIC`
abbrev pub boot_ram_inverse : ℕ
boot_ram_inverse = 2 ^ 32 - 1 - boot_ram_magic

abbrev pub reset_result : ℤ → Boot → Boot
reset_result result b = record b { reset_read_result = result }

abbrev pub set_fault_status : ℕ → Boot → Boot
set_fault_status status b = record b { fault_status = status }

-- The values that a line shows; `flag` is `previous`.
pub data BootText : Type 0 where
  previous_text : ℕ → ℤ → ℤ → BootText
  current_text : ℕ → ℕ → ℕ → ℤ → ℕ → ℕ → ℕ → BootText

pub totem_boot_diagnostics_format : Bool → Boot → BootText
totem_boot_diagnostics_format flag b =
    if flag
    then previous_text b.saved_previous_uptime b.saved_previous_profile b.saved_previous_endpoint
    else current_text b.counter.count b.raw_reset b.raw_available b.reset_read_result b.ram_survived
        b.fault_status b.counter_status

-- `nrfx_reset_reason_get()` is the argument; the board is an nRF52840.
unfoldable pub capture_early : ℕ → Boot → Boot
capture_early reason b = record b {
  raw_reset = reason;
  raw_available = 1;
  ram_survived = bool_to_nat (b.ram_magic == boot_ram_magic && b.ram_inverse == boot_ram_inverse);
  ram_magic = boot_ram_magic;
  ram_inverse = boot_ram_inverse;
}

-- `boot_record_word`: a word in four bytes of a record, least significant first.
abbrev pub word_event : ℕ → Hevt → ℕ → ℕ → Event
word_event now kind value status =
    event now kind (as_int8 value) (as_int8 (value / 2 ^ 8)) status ((value / 2 ^ 16) % 2 ^ 8)
      ((value / 2 ^ 24) % 2 ^ 8)

-- What a settings read gives: the stored length, the result of `read_cb` and the value read.
pub record Read {ℓ} (A : Type ℓ) : Type ℓ where
  pub len : ℕ
  pub rc : ℤ
  pub value : A

-- sizeof(boot_counter)
abbrev pub counter_size : ℕ
counter_size = 8

-- Which value a settings key names.
pub data Key : Type 0 where
  count_key other_key : Key

-- -ENOENT
abbrev pub enoent : ℤ
enoent = ℤ.negsuc 1

-- `crc32` is `crc32_ieee` over the four bytes of a count.
module _ (crc32 : ℕ → ℕ) where
  abbrev pub counter_crc : Counter → ℕ
  counter_crc c = crc32 c.count

  -- `totem_boot_diagnostics_loaded`, with the events that it records, in order.
  unfoldable pub loaded : ℕ → ℕ → ℤ → ℤ → Boot → Boot × List Event
  loaded now uptime profile endpoint b =
      let count = (b.counter.count + 1) % 2 ^ 32 in
      if b.boot_loaded then (b, []) else (
        record b {
          boot_loaded = true;
          saved_previous_uptime = uptime;
          saved_previous_profile = profile;
          saved_previous_endpoint = endpoint;
          counter = record { count = count; crc = crc32 count };
          counter_pending = true;
        },
        word_event now Hevt.boot_raw b.raw_reset b.raw_available
            ∷ word_event now Hevt.boot_counter count b.counter_status
            ∷ word_event now Hevt.boot_previous_uptime uptime 0
            ∷ event now Hevt.boot_previous_state profile endpoint 0 0 0
            ∷ event now Hevt.boot_ram_status minus_one minus_one b.ram_survived 0 0
            ∷ [],
      )

  -- `boot_settings_set`
  unfoldable pub settings_set : Key → Read Counter → Boot → Boot × ℤ
  settings_set other_key r b = (b, enoent)
  settings_set count_key r b =
      if b.boot_loaded
      then (b, pos 0)
      else if not (r.len == counter_size)
      then (record b { counter_status = 2 }, pos 0)
      else (
        if not (int_eq r.rc (pos counter_size)) || not (r.value.crc == counter_crc r.value)
            then record b { counter = record { count = 0; crc = 0 }; counter_status = 2 }
            else record b { counter = r.value; counter_status = 1 },
        if is_neg r.rc then r.rc else pos 0,
      )

-- `totem_boot_diagnostics_persist`: `err` is what `settings_save_one` returns, if it is called.
-- The option is the value that is written.
unfoldable pub persist : ℤ → Boot → Boot × ℤ × Option Counter
persist err b =
    if b.counter_pending
    then (if is_nonzero err then b else record b { counter_pending = false }, err, some b.counter)
    else (b, pos 0, none)
