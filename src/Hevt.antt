-- ===== src/Hevt.antt =====
-- include/totem_host_event_log.h: the kinds of event, with the stable codes that a record stores.
use totem_zmk_config.Prelude.{ℕ}

pub data Hevt : Type 0 where
  no_event disc conn conn_fail sec_ok sec_fail bg_evict active_down_arm watch_arm watch_step : Hevt
  profile_changed identity class_a_suspect thrash_win boot fault usb adv split repeat : Hevt
  hid_subscribed hid_first_attempt hid_tx_result adv_result sec_request sec_request_result : Hevt
  flash_begin flash_end hci_disc conn_handle timing_dropped hid_count hid_error handoff_param : Hevt
  handoff_term handoff_radio encrypt_event security_timing security_exchange handoff_tx boot_raw :
      Hevt
  boot_read_result boot_fault_status boot_counter boot_previous_uptime boot_previous_state : Hevt
  boot_ram_status heartbeat : Hevt

-- The value of the C enumerator.
abbrev pub code : Hevt → ℕ
code no_event = 0
code disc = 1
code conn = 2
code conn_fail = 3
code sec_ok = 4
code sec_fail = 5
code bg_evict = 6
code active_down_arm = 7
code watch_arm = 8
code watch_step = 9
code profile_changed = 10
code identity = 11
code class_a_suspect = 12
code thrash_win = 13
code boot = 14
code fault = 15
code usb = 16
code adv = 17
code split = 18
code repeat = 19
code hid_subscribed = 20
code hid_first_attempt = 21
code hid_tx_result = 22
code adv_result = 23
code sec_request = 24
code sec_request_result = 25
code flash_begin = 26
code flash_end = 27
code hci_disc = 28
code conn_handle = 29
code timing_dropped = 30
code hid_count = 31
code hid_error = 32
code handoff_param = 33
code handoff_term = 34
code handoff_radio = 35
code encrypt_event = 36
code security_timing = 37
code security_exchange = 38
code handoff_tx = 39
code boot_raw = 40
code boot_read_result = 41
code boot_fault_status = 42
code boot_counter = 43
code boot_previous_uptime = 44
code boot_previous_state = 45
code boot_ram_status = 46
code heartbeat = 47
