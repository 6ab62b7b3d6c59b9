-- ===== src/Lib.antt =====
-- The left half of a Totem keyboard on ZMK: the modules of src/ that keep an event journal, watch the
-- links of the computers it is paired with, observe the radio and the encryption of a link, and
-- watch over the keyboard itself.
--
-- The parts and how they interact:
--   Config          the constants that config/totem.conf, config/totem_left.conf and Kconfig set
--   Hevt, Event     include/totem_host_event_log.h and the packed record of src/host_event_log.c
--   Journal         src/host_event_log.c: `Log` is its static variables. `record_event` writes to the
--                   ring; Journal.Persist is `totem_host_event_log_persist`, Journal.Restore is
--                   `hevt_settings_set` and `zmk_settings_loaded`, Journal.Dump is
--                   `totem_host_event_log_dump`, Journal.Requests the key and the work items,
--                   Journal.Reboot all of these over several boots, with what the settings keep
--   Boot            src/boot_diagnostics.c: the boot counter, which Journal.Restore loads and
--                   Journal.Persist saves, and the rows that a boot adds to the journal
--   Fault           src/totem_fault.c: the record of a crash or a hang that survives a reset
--   Host            what the Bluetooth host and ZMK answer: parameters of the next two parts
--   ExclusiveHost   src/exclusive_host.c: links of computers other than the selected one are dropped.
--                   ExclusiveHost.Evict is `drop_if_non_active_host`, ExclusiveHost.Handlers the
--                   callbacks; their rows go to the journal
--   ReconnectWatch  src/reconnect_watch.c: the ladder of steps when the selected computer is down;
--                   ReconnectWatch.References is its use of `bt_conn_ref` and `bt_conn_unref`
--   LazyHost        src/lazy_inactive_host.c: slow parameters for computers that are not selected
--   UsbQuiet        src/usb_host_quiet.c: on a cable the links to computers are dropped
--   Timing          src/diagnostic_timing.c: the inbox between the controller's path and the journal;
--                   Timing.Wrappers is its two wrapped functions
--   Handoff         src/handoff_diagnostics.c: counters of a link that is left; they go to Timing.
--                   Handoff.Controller is the controller's termination procedure
--   Security        src/security_timing.c and src/security_controller_timing.c: the steps of a link's
--                   encryption; they go to Timing
--   HidConnection   src/hid_connection_log.c: the first events of each connection
--   HidReports      src/hid_report_diagnostics.c: counts of keyboard reports by profile and stage
--   RadioTx         src/handoff_radio_tx.c: whether the last packet was sent; it calls Handoff
--   Watchdog        src/totem_watchdog.c: the reset cause, and hangs, which go to Fault
--   Battery         src/totem_battery_log.c: battery levels on the console and in the journal
--   EndpointLog     src/totem_endpoint_log.c and src/conn_params_log.c: lines on the console
--   Studio          src/totem_studio_usb.c and src/totem_studio_extras.c: Studio over the cable
--
-- A function of the C code that changes static variables takes the record of them and returns the
-- new one, with the calls it makes of other code as a list, in order. The uptime, the answers of the
-- Bluetooth host, the results of flash writes and what other threads do meanwhile are arguments.
-- Checksums (`crc32_ieee`) are parameters on the fields they cover. Unsigned integers wrap as they do
-- in C where the code relies on it; uptimes are taken as 64-bit values that do not wrap, and a module
-- reads one uptime in each call, except where a flash write comes between two reads.
--
-- Loops are recursion on the number of rounds the C loop makes, so no fuel is chosen; only
-- `drain` (Journal.Persist.Progress) takes a number of writes, and its theorem says which is enough. Journal.Reboot
-- runs a list of operations; it takes from the settings, as documented, that a key keeps the last
-- value written, and that a write that fails leaves it.
--
-- Not modelled: Kconfig, the keymap and the boards; the patches of ZMK and Zephyr, whose functions
-- are arguments; and the scripts for a computer. Lines that are only written to the console are left out, but for those of
-- Battery, EndpointLog, Studio and Watchdog.Profiles, where they are the purpose: such a line is its parts.
pub mod Prelude
pub mod Config
pub mod Hevt
pub mod Event
pub mod Boot
pub mod Host
pub mod ExclusiveHost
pub mod Journal
pub mod ReconnectWatch
pub mod LazyHost
pub mod UsbQuiet
pub mod Timing
pub mod Fault
pub mod Handoff
pub mod RadioTx
pub mod HidReports
pub mod HidConnection
pub mod Security
pub mod Watchdog
pub mod Battery
pub mod EndpointLog
pub mod Studio
