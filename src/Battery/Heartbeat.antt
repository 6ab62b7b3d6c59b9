-- ===== src/Battery/Heartbeat.antt =====
-- Reading back the power sample of the journal.
use totem_zmk_config.Prelude.{
  ℕ, ◌+◌, ◌*◌, ◌%◌, ◌<◌, ◌≡◌, arith, Bool, true, false, ℤ, min, leb, magnitude, ◌^◌, int8_small,
}
use totem_zmk_config.Event.{Event}
use totem_zmk_config.Battery.{Battery, heartbeat_word, totem_batt_heartbeat_handler}

-- The word in the last two bytes, as the documentation of TOTEM_HEVT_HEARTBEAT packs it.
abbrev pub word_of : Event → ℕ
word_of e = e.thrash_win + 256 * e.extra

-- The journal's power sample can be read back: bits 0 to 14 of its word hold the millivolts, cut off
-- at 32767, bit 15 tells whether the cable was in, and the levels of the two halves are in their
-- bytes, where that of the right half, -1 if it is unknown, is less than 128 in size.
word_of-heartbeat :
    (now : ℕ) (active : ℤ) (soc mv : ℕ) (usb : Bool) (s : Battery)
    → soc < 256
    → magnitude s.peripheral_soc < 128
    → let e = (totem_batt_heartbeat_handler now active soc mv usb s).0 in
      (word_of e % 2 ^ 15 ≡ min mv 32767)
      × (leb (2 ^ 15) (word_of e) ≡ usb)
      × (e.reason ≡ soc)
      × (e.active ≡ s.peripheral_soc)
unfolding totem_batt_heartbeat_handler heartbeat_word
word_of-heartbeat now active soc mv true s h small =
    (omega arith, ground arith, omega arith, int8_small s.peripheral_soc small)
word_of-heartbeat now active soc mv false s h small =
    (omega arith, ground arith, omega arith, int8_small s.peripheral_soc small)
