-- ===== src/Event.antt =====
-- src/host_event_log.c, `struct totem_host_event`: one record of the diagnostic journal.
use totem_zmk_config.Prelude.{ℕ, ℤ, pos}
use totem_zmk_config.Hevt.{Hevt, code}

-- Unsigned fields hold their value; `idx` and `active` are `int8_t`.
pub record Event : Type 0 where
  pub uptime_ms : ℕ
  pub type : ℕ
  pub idx : ℤ
  pub active : ℤ
  pub reason : ℕ
  pub thrash_win : ℕ
  pub extra : ℕ

-- What `memset` to zero leaves.
abbrev pub zero_event : Event
zero_event = record {
  uptime_ms = 0;
  type = 0;
  idx = pos 0;
  active = pos 0;
  reason = 0;
  thrash_win = 0;
  extra = 0;
}

-- The arguments of `totem_host_event_log_record`, at the time that the callee reads.
abbrev pub event : ℕ → Hevt → ℤ → ℤ → ℕ → ℕ → ℕ → Event
event now k idx active reason win extra = record {
  uptime_ms = now;
  type = code k;
  idx = idx;
  active = active;
  reason = reason;
  thrash_win = win;
  extra = extra;
}
