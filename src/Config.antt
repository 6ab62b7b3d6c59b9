-- ===== src/Config.antt =====
-- config/totem.conf, config/totem_left.conf and Kconfig: the build-time numbers of the left
-- (central) image, which the C files read as CONFIG_* macros.
use totem_zmk_config.Prelude.{ℕ}

-- CONFIG_TOTEM_HOST_EVENT_LOG_SIZE
abbrev pub ring_cap : ℕ
ring_cap = 1024

-- CONFIG_TOTEM_HOST_EVENT_LOG_PERSIST_EVERY
abbrev pub persist_every : ℕ
persist_every = 64

-- CONFIG_TOTEM_HOST_EVENT_LOG_PERSIST_MIN_MS
abbrev pub persist_min_interval_ms : ℕ
persist_min_interval_ms = 300000

-- CONFIG_TOTEM_HOST_EVENT_LOG_BLOCK_SIZE
abbrev pub block_events : ℕ
block_events = 16

-- CONFIG_TOTEM_HOST_EVENT_LOG_SLOTS
abbrev pub journal_slots : ℕ
journal_slots = 8

-- CONFIG_TOTEM_BG_EVICT_IGNORE_MS
abbrev pub bg_evict_ignore_ms : ℕ
bg_evict_ignore_ms = 10000

-- CONFIG_TOTEM_BG_EVICT_CAP
abbrev pub bg_evict_cap : ℕ
bg_evict_cap = 4

-- CONFIG_TOTEM_THRASH_WINDOW_SEC
abbrev pub thrash_window_sec : ℕ
thrash_window_sec = 10

-- CONFIG_TOTEM_BOND_HEAL_THRESHOLD, at its default
abbrev pub bond_heal_threshold : ℕ
bond_heal_threshold = 3

-- CONFIG_TOTEM_RECONNECT_WATCH_SEC
abbrev pub reconnect_watch_sec : ℕ
reconnect_watch_sec = 8

-- CONFIG_ZMK_BLE_ADV_BOOST_SEC, with CONFIG_ZMK_BLE_ADV_BOOST on
abbrev pub adv_boost_sec : ℕ
adv_boost_sec = 20
