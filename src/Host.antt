-- ===== src/Host.antt =====
-- What the Bluetooth host and ZMK answer to the modules that watch computer links: the results of
-- `bt_conn_get_info`, `zmk_ble_profile_index`, `zmk_ble_active_profile_index` and the like.
use totem_zmk_config.Prelude.{ℕ, ℤ, Bool}

-- One LE connection, as a callback sees it.
pub record Conn : Type 0 where
  pub info_ok : Bool  -- bt_conn_get_info returns 0
  pub peripheral : Bool  -- info.role: the link is to a computer
  pub connected : Bool  -- info.state is BT_CONN_STATE_CONNECTED
  pub idx : ℤ  -- zmk_ble_profile_index of its address; negative if unknown
  pub security : ℕ  -- bt_conn_get_security
  pub disconnect_err : ℤ  -- what bt_conn_disconnect would return

-- The selected profile and the cable.
pub record Radio : Type 0 where
  pub hid_is_usb : Bool  -- totem_hid_is_usb
  pub cable_up : Bool  -- totem_usb_cable_up
  pub adv_suppressed : Bool  -- zmk_ble_host_adv_suppressed
  pub active : ℤ  -- zmk_ble_active_profile_index
  pub is_open : Bool  -- zmk_ble_active_profile_is_open
  pub is_connected : Bool  -- zmk_ble_active_profile_is_connected

-- BT_SECURITY_L2
abbrev pub security_l2 : ℕ
security_l2 = 2

-- BT_HCI_ERR_AUTH_FAIL
abbrev pub err_auth_fail : ℕ
err_auth_fail = 5

-- BT_HCI_ERR_REMOTE_USER_TERM_CONN
abbrev pub err_remote_user_term : ℕ
err_remote_user_term = 0x13
