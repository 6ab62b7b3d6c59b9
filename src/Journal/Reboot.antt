-- ===== src/Journal/Reboot.antt =====
-- src/host_event_log.c over several boots: recording, `totem_host_event_log_persist`, and the
-- settings that give the stored blocks back after a reset. `Flash` is what the settings keep: the
-- last value written for each key.
pub mod Load
pub mod Saving
pub mod Steps
pub mod Calls
pub mod Order
pub mod Recovery
pub mod Rotation
pub mod Shown
pub mod History
pub mod Dumped
mod Tests
use totem_zmk_config.Prelude.{
  ℕ, ◌+◌, ◌==◌, if◌then◌else◌, Bool, List, [], ◌∷◌, length, is_nonzero, Option, none, some, pos, ℤ,
}
use totem_zmk_config.Boot.{Boot}
use totem_zmk_config.Journal.{Log, initial}
use totem_zmk_config.Journal.Layout.{Block, Payload}
use totem_zmk_config.Journal.Record.{Call, record_all}
use totem_zmk_config.Journal.Persist.{Env, Outcome, persist}
use totem_zmk_config.Journal.Restore.{settings_set, resume}
use totem_zmk_config.Journal.Restore.Accept.{name_of, whole}

abbrev pub Flash : Type 0
Flash = List Block

abbrev pub without : ℕ → Flash → Flash
without slot [] = []
without slot (c ∷ cs) = let rest = without slot cs in if c.slot == slot then rest else c ∷ rest

-- `settings_save_one` replaces the value of a block's key, unless it fails.
abbrev pub save : ℤ → Option Block → Flash → Flash
save err none f = f
save err (some b) f = if is_nonzero err then f else b ∷ without b.slot f

-- What can happen: events are recorded; `persist` runs, while other events are recorded; a reset,
-- after which events are recorded before the blocks are read back.
pub data Op : Type 0 where
  recording : List Call → Op
  saving : Env → Boot → List Call → Op
  reset : List Call → Op

-- The events of an operation.
abbrev pub cost : Op → ℕ
cost (recording cs) = length cs
cost (saving env b cs) = length cs
cost (reset cs) = length cs

abbrev pub total : List Op → ℕ
total [] = 0
total (op ∷ ops) = cost op + total ops

module _ (crc32 : Payload → ℕ) where
  -- The handler reads the stored blocks whole, in some order.
  pub load : Flash → Log → Log
  load [] s = s
  load (b ∷ bs) s = load bs (settings_set crc32 (name_of b.slot) (whole crc32 b) s).0

  abbrev pub outcome : Env → Boot → List Call → Log → Outcome
  outcome env b cs s = persist crc32 (record env { meanwhile = record_all cs }) b s

  pub step : Op → Log × Flash → Log × Flash
  step (recording cs) (s, f) = (record_all cs s, f)
  step (saving env b cs) (s, f) = let o = outcome env b cs s in (o.log, save env.err o.block f)
  step (reset cs) (s, f) = (resume (load f (record_all cs initial)), f)

  pub run : List Op → Log × Flash → Log × Flash
  run [] sf = sf
  run (op ∷ ops) sf = run ops (step op sf)

-- A keyboard whose flash is empty, once the settings have been read.
abbrev pub fresh : Log × Flash
fresh = (resume initial, [])
