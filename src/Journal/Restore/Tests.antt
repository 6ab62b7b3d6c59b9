-- ===== src/Journal/Restore/Tests.antt =====
-- The theorem on the scan of the saved journal at a concrete log.
use totem_zmk_config.Prelude.{
  ℕ, ◌≡◌, length, refl, true, List, [], ◌∷◌, set, pos, minus_one, as_int8,
}
use totem_zmk_config.Hevt.{Hevt}
use totem_zmk_config.Event.{Event, event}
use totem_zmk_config.Journal.{Log, initial}
use totem_zmk_config.Journal.Layout.{Block, block_magic, block_version}
use totem_zmk_config.Journal.Restore.{has_endpoint, scan_log}
use totem_zmk_config.Journal.Restore.Newest.{IsNewest}
use totem_zmk_config.Journal.Restore.Saved.{names_profile, saved_rows, scan_log-IsNewest}

-- The block of `slot`, whose events have the numbers from `first` on.
abbrev saved_block : ℕ → ℕ → List Event → Block
saved_block slot first es = record {
  payload = record {
    magic = block_magic;
    version = block_version;
    slot = slot;
    count = length es;
    journal_seq = first;
    first_event_seq = first;
    ev = es;
  };
  crc = 0;
}

-- The newer block stands in the lower slot. Its last event is the newest, and names no profile.
abbrev two_blocks : Log
two_blocks = record initial {
  restored_blocks =
      set
        (set initial.restored_blocks 3
          (saved_block 3 7 (event 4000 Hevt.disc (pos 1) (pos 1) 8 0 0 ∷ [])))
        1
        (saved_block 1 8 (
          event 6000 Hevt.conn (pos 2) (pos 2) 0 0 0
          ∷ event 9000 Hevt.usb minus_one minus_one 255 0 1
          ∷ []));
  restored_valid = set (set initial.restored_valid 3 true) 1 true;
}

-- The uptime is 9000, the profile 2 and the endpoint 1.
two_blocks_scan :
    let t = scan_log two_blocks in
    (t.previous_uptime ≡ 9000) × (t.previous_profile ≡ pos 2) × (t.previous_endpoint ≡ pos 1)
unfolding scan_log
two_blocks_scan = (refl, refl, refl)

scan_log-IsNewest_example :
    let t = scan_log two_blocks in
    IsNewest
      (λ e. true)
      (λ e. e.uptime_ms)
      0
      (saved_rows two_blocks)
      t.previous_seq
      t.previous_uptime
    × IsNewest names_profile
        (λ e. e.active)
        minus_one
        (saved_rows two_blocks)
        t.profile_seq
        t.previous_profile
    × IsNewest has_endpoint
        (λ e. as_int8 e.extra)
        minus_one
        (saved_rows two_blocks)
        t.endpoint_seq
        t.previous_endpoint
scan_log-IsNewest_example = scan_log-IsNewest two_blocks refl
