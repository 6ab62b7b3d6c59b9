-- ===== src/Boot/Tests.antt =====
-- The theorems on the boot counter at concrete values.
use totem_zmk_config.Prelude.{ℕ, ◌+◌, ◌%◌, ◌^◌, ◌≡◌, refl, false, some, pos, minus_one}
use totem_zmk_config.Boot.{Counter, count_key, initial, loaded, settings_set, persist}
use totem_zmk_config.Boot.Laws.{stored, counter-next_boot}

abbrev next : ℕ → ℕ
next n = n + 1

-- The seventh boot.
abbrev six : Counter
six = record { count = 6; crc = 7 }

counter-next_boot_example :
    let read = (settings_set next count_key (stored six) (initial 0 0)).0 in
    let booted = (loaded next 900 0 minus_one minus_one read).0 in
    let (saved, err, written) = persist (pos 0) booted in
    (booted.counter.count ≡ (6 + 1) % 2 ^ 32)
    × (written ≡ some booted.counter)
    × (saved.counter_pending ≡ false)
    × ((settings_set next count_key (stored booted.counter) (initial 1 2)).0
        ≡ record (initial 1 2) { counter = booted.counter; counter_status = 1 })
counter-next_boot_example =
    counter-next_boot next (initial 0 0) (initial 1 2) six 900 0 minus_one minus_one refl refl refl
