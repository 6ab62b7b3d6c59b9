-- ===== src/Studio/Extras.antt =====
-- src/totem_studio_extras.c: lines for Studio, and the signal strength of the links every 10 s.
-- The text that snprintk writes is a parameter by its length, `text_len`; a line is its parts, with
-- `n` characters. CONFIG_ZMK_STUDIO_LOG_LINE_MAX is the parameter `line_max`.
pub mod Bounds
use totem_zmk_config.Prelude.{
  ℕ, ◌+◌, ◌-◌, ◌/◌, ◌%◌, ◌^◌, Bool, true, false, ◌&&◌, ◌||◌, not, List, [], ◌∷◌, ◌++◌, ltb, leb,
  ◌==◌, if◌then◌else◌, ℤ, pos, negsuc, is_neg, is_nonzero, magnitude, int_eq, Option, none, some,
  get_or, length,
}
use totem_zmk_config.Host.{Conn}

-- -EMSGSIZE and -EAGAIN
abbrev pub emsgsize : ℤ
emsgsize = negsuc 121

abbrev pub eagain : ℤ
eagain = negsuc 10

-- `usb_selected` is whether the selected endpoint is USB, `hid_ready` what zmk_usb_is_hid_ready says.
pub usb_hid_ready : Bool → Bool → Bool
usb_hid_ready usb_selected hid_ready = if not usb_selected then false else hid_ready

-- The line is its bytes; `none` where it is not passed on to zmk_studio_log_send_line.
pub totem_studio_send_diag_line : Bool → Bool → List ℕ → Option ℤ
totem_studio_send_diag_line usb_selected hid_ready line =
    if length line == 0
    then some emsgsize
    else if not (usb_hid_ready usb_selected hid_ready)
    then some eagain
    else none

-- The flag is whether the dump is requested, and streaming is turned on.
pub dump_frame_cb : List ℕ → Bool
dump_frame_cb payload = not (ltb (length payload) 2 || not (get_or payload 1 0 == 0x31))

-- What the controller answers to the command; `none` where a step of it fails.
abbrev pub read_conn_rssi : Option ℤ → ℤ
read_conn_rssi none = pos 127
read_conn_rssi (some rssi) = rssi

-- The text of one link.
pub data Text : Type 0 where
  split_text : Option ℤ → Text
  idx_text : ℤ → Option ℤ → Text
  other_text : ℤ → Text

-- struct rssi_acc
pub record RssiAcc : Type 0 where
  pub n : ℕ
  pub peers : ℕ
  pub hosts : ℕ
  pub split : ℕ
  pub line : List Text

abbrev pub empty_acc : RssiAcc
empty_acc = record { n = 0; peers = 0; hosts = 0; split = 0; line = [] }

-- 127 stands for no answer.
abbrev pub known : ℤ → Option ℤ
known rssi = if int_eq rssi (pos 127) then none else some rssi

abbrev pub text_of : Conn → ℤ → Text
text_of c rssi =
    if is_neg c.idx && not c.peripheral
    then split_text (known rssi)
    else if not (is_neg c.idx)
    then idx_text c.idx (known rssi)
    else other_text rssi

-- HEARTBEAT_PERIOD
abbrev pub heartbeat_period_sec : ℕ
heartbeat_period_sec = 10

-- The endpoint's transport, as the lines name it.
pub data Transport : Type 0 where
  usb ble no_transport : Transport

-- The two lines: no links stand for "none".
pub record Heartbeat : Type 0 where
  pub up_s : ℕ
  pub hid : Transport
  pub adv : List ℕ
  pub hosts : ℕ
  pub split : ℕ
  pub links : Option (List Text)

module _ (line_max : ℕ) (text_len : Text → ℤ) where
  -- The links come with what the controller answers for them.
  unfoldable pub rssi_one : Conn × Option ℤ → RssiAcc → RssiAcc
  rssi_one (c, answer) acc =
      let text = text_of c (read_conn_rssi answer) in
      let counted =
        if is_neg c.idx && not c.peripheral
        then record acc { split = (acc.split + 1) % 256 }
        else if not (is_neg c.idx)
        then record acc { hosts = (acc.hosts + 1) % 256 }
        else acc in
      let wrote = text_len text in
      if not c.info_ok || not c.connected
      then acc
      else if leb (line_max - 16) counted.n
      then counted
      else if is_neg wrote || not (is_nonzero wrote)
      then counted
      else record counted {
        n = counted.n + magnitude wrote;
        peers = (counted.peers + 1) % 256;
        line = counted.line ++ text ∷ [];
      }

  pub rssi_all : List (Conn × Option ℤ) → RssiAcc → RssiAcc
  rssi_all [] acc = acc
  rssi_all (c ∷ cs) acc = rssi_all cs (rssi_one c acc)

  -- The work, with the seconds after which it runs again, and what it prints while Studio has the
  -- log on. `transport` is that of the selected endpoint, `adv` the text of the advertising state.
  pub heartbeat_work_cb :
      Bool → ℕ → Transport → List ℕ → List (Conn × Option ℤ) → ℕ × Option Heartbeat
  heartbeat_work_cb streaming now transport adv cs =
      let acc = rssi_all cs empty_acc in
      (
        heartbeat_period_sec,
        if not streaming
            then none
            else some (record {
              up_s = (now % 2 ^ 32) / 1000;
              hid = transport;
              adv = adv;
              hosts = acc.hosts;
              split = acc.split;
              links = if acc.peers == 0 then none else some acc.line;
            }),
      )

-- The seconds after which the work first runs.
abbrev pub totem_studio_extras_init : ℕ
totem_studio_extras_init = heartbeat_period_sec
