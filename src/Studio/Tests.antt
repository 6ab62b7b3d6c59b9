-- ===== src/Studio/Tests.antt =====
-- The theorems on Studio's modules at concrete inputs.
use totem_zmk_config.Prelude.{
  ◌+◌, ◌≤◌, ◌≡◌, arith, true, false, List, [], ◌∷◌, pos, minus_one, some, none, Option, ℤ,
  replicate,
}
use totem_zmk_config.Host.{Conn}
use totem_zmk_config.Studio.Usb.{Answer, max_tries, usb, totem_studio_usb_init}
use totem_zmk_config.Studio.Usb.Retries.{Happening, heard, ran, after, fire_all, retries_end}
use totem_zmk_config.Studio.Extras.{Text, split_text, idx_text, other_text, empty_acc, rssi_all}
use totem_zmk_config.Studio.Extras.Bounds.{IsRoomy, rssi_all-IsRoomy}

-- A cable in, and an endpoint that stays on Bluetooth.
abbrev refused : Answer
refused = record { powered = true; selected = false }

-- The cable comes while the work is retried.
abbrev plugged : List Happening
plugged = ran refused ∷ heard 2000 1 (usb 2) ∷ ran refused ∷ []

retries_end_example :
    let (last, runs) = fire_all (replicate 25 refused) (after plugged totem_studio_usb_init) in
    (last.work ≡ none) × (last.tries ≤ max_tries) × (runs ≤ max_tries + 1)
retries_end_example = retries_end plugged (replicate 25 refused) (omega arith)

-- The longest text of a profile below 10: " idx4=-128" is 10 long, " split=-128" 11.
abbrev text_len : Text → ℤ
text_len (split_text rssi) = pos 11
text_len (idx_text idx rssi) = pos 10
text_len (other_text rssi) = pos 11

abbrev laptop : Conn
laptop = record {
  info_ok = true;
  peripheral = true;
  connected = true;
  idx = pos 0;
  security = 2;
  disconnect_err = pos 0;
}

abbrev links : List (Conn × Option ℤ)
links =
    (laptop, some minus_one) ∷ (record laptop { idx = minus_one; peripheral = false }, none) ∷ []

rssi_all-IsRoomy_example : IsRoomy 128 text_len (rssi_all 128 text_len links empty_acc)
rssi_all-IsRoomy_example =
    rssi_all-IsRoomy 128 text_len links empty_acc (omega arith) (omega arith) (omega arith)
