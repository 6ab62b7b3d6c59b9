-- ===== src/Journal/Requests.antt =====
-- src/host_event_log.c: who asks for a dump, and the work items.
use totem_zmk_config.Prelude.{ℕ, ℤ, Bool, true, List}
use totem_zmk_config.Boot.{Boot}
use totem_zmk_config.Fault.{Fault}
use totem_zmk_config.Journal.{Log}
use totem_zmk_config.Journal.Layout.{Payload}
use totem_zmk_config.Journal.Persist.{Env, Outcome, persist}
use totem_zmk_config.Journal.Dump.{Line, Detail, Dump, totem_host_event_log_dump}

-- Whether `dump_work` waits in `dump_queue`; work that waits is not queued again.
pub totem_host_event_log_request_dump : Bool → Bool
totem_host_event_log_request_dump waits = true

-- The key's behaviour: what it answers, and the queue.
pub data Answer : Type 0 where
  opaque : Answer

pub on_dump_pressed : Bool → Answer × Bool
on_dump_pressed waits = (opaque, totem_host_event_log_request_dump waits)

pub on_dump_released : Bool → Answer × Bool
on_dump_released waits = (opaque, waits)

module _ (line_len : Line → ℕ) (detail_len : Detail → ℕ) where
  pub dump_work_handler : ℕ → Boot → Fault → Log → List ℤ → Dump
  dump_work_handler id b f s answers =
      totem_host_event_log_dump line_len detail_len id b f s answers

module _ (crc32 : Payload → ℕ) where
  pub persist_work_handler : Env → Boot → Log → Outcome
  persist_work_handler env b s = persist crc32 env b s
