-- ===== src/Boot/Laws.antt =====
-- The boot counter over a reset.
use totem_zmk_config.Prelude.{
  ℕ, ◌+◌, ◌%◌, ◌^◌, ◌*◌, ◌≡◌, ◌<◌, arith, true, false, ℤ, pos, is_nonzero, some, as_uint8,
}
use totem_zmk_config.Hevt.{Hevt}
use totem_zmk_config.Event.{Event}
use totem_zmk_config.Boot.{
  Boot, Counter, Read, count_key, counter_size, loaded, settings_set, persist, word_event,
}

-- What the settings code hands to the handler for a stored value.
abbrev pub stored : Counter → Read Counter
stored c = record { len = counter_size; rc = pos counter_size; value = c }

-- A boot that reads an intact counter before it is loaded counts itself, and what it then saves is
-- read back intact by a boot `t` that is not loaded, which reports status 1; the number wraps at 32
-- bits.
pub counter-next_boot :
    (crc32 : ℕ → ℕ) (b t : Boot) (c : Counter) (now uptime : ℕ) (profile endpoint : ℤ)
    → c.crc ≡ crc32 c.count
    → b.boot_loaded ≡ false
    → t.boot_loaded ≡ false
    → let read = (settings_set crc32 count_key (stored c) b).0 in
      let booted = (loaded crc32 now uptime profile endpoint read).0 in
      let (saved, err, written) = persist (pos 0) booted in
      (booted.counter.count ≡ (c.count + 1) % 2 ^ 32)
      × (written ≡ some booted.counter)
      × (saved.counter_pending ≡ false)
      × ((settings_set crc32 count_key (stored booted.counter) t).0
          ≡ record t { counter = booted.counter; counter_status = 1 })
unfolding settings_set loaded persist
counter-next_boot crc32 b t c now uptime profile endpoint h i j = ground arith

-- After the boot is loaded, a failed write of the counter changes nothing and hands on its error, and
-- the next call writes the same value again.
pub persist-retry :
    (crc32 : ℕ → ℕ) (b : Boot) (err : ℤ) (now uptime : ℕ) (profile endpoint : ℤ)
    → b.boot_loaded ≡ false
    → is_nonzero err ≡ true
    → let booted = (loaded crc32 now uptime profile endpoint b).0 in
      (persist err booted ≡ (booted, err, some booted.counter))
      × (persist (pos 0) booted
          ≡ (record booted { counter_pending = false }, pos 0, some booted.counter))
unfolding loaded persist
persist-retry crc32 b err now uptime profile endpoint h e = ground arith

-- The word in four bytes of a record, as a reader of the journal puts it together.
abbrev pub word_of : Event → ℕ
word_of e = as_uint8 e.idx + 256 * as_uint8 e.active + 65536 * e.thrash_win + 16777216 * e.extra

-- A 32-bit word goes through the four bytes of a record, two of them signed, unchanged.
pub word_of-word_event :
    (now : ℕ) (kind : Hevt) (value status : ℕ)
    → value < 2 ^ 32
    → word_of (word_event now kind value status) ≡ value
word_of-word_event now kind value status h = ground arith
