-- ===== src/Journal/Tests.antt =====
-- The theorems on the journal at concrete logs.
use totem_zmk_config.Prelude.{
  ℕ, ◌+◌, ◌≡◌, refl, arith, true, false, List, [], ◌∷◌, ◌++◌, set, length-set, length-replicate,
  some, ℤ, pos, minus_one, drop, length, ◌<◌, ◌^◌,
}
use totem_zmk_config.Config.{ring_cap, journal_slots, block_events}
use totem_zmk_config.Hevt.{Hevt}
use totem_zmk_config.Event.{Event, event, zero_event}
use totem_zmk_config.Boot
use totem_zmk_config.Boot.{Boot, Read}
use totem_zmk_config.Journal.{Log, initial, ring_get_ordered}
use totem_zmk_config.Journal.Layout.{block_magic, block_version, Payload, Block, zero_block}
use totem_zmk_config.Journal.Ordered.{IsWf}
use totem_zmk_config.Journal.Record.{Call, record_all, events, latest, ring_get_ordered-record_all}
use totem_zmk_config.Journal.Sequence.{IsSound, pending}
use totem_zmk_config.Journal.Pending.{pending-record_all}
use totem_zmk_config.Journal.Persist.{
  Env, persist, persist_begin, persist_finish, writing, new_block, add32, sub32, first_new,
  block_count,
}
use totem_zmk_config.Journal.Persist.Copy.{Written}
use totem_zmk_config.Journal.Persist.Progress.{
  Allowed, writing_of_Allowed, persist_begin-Written, finish-pending, drain, drain_all,
}
use totem_zmk_config.Journal.Persist.Limit.{
  Quiet, Failed, persist-block, persist-persist, persist-Failed,
}
use totem_zmk_config.Journal.Dump.{Line, Detail, Dump, eagain, dump_journal, end_line}
use totem_zmk_config.Journal.Dump.Complete.{
  Ends, dump_journal-Ends, details, slot_details, ring_details, data_lines, begin_of,
}
use totem_zmk_config.Journal.Dump.Whole.{AreShort, dump_journal-details}
use totem_zmk_config.Journal.Restore.{settings_set, settings_loaded, accept, last_seq}
use totem_zmk_config.Journal.Restore.Accept.{
  name_of, whole, IsGenuine, refused, settings_set-refuses, settings_set-persist_begin,
}
use totem_zmk_config.Journal.Restore.Resume.{IsLoading, boot_events, settings_loaded-pending}

-- A connection of profile 0.
abbrev conn_event : Event
conn_event = event 5000 Hevt.conn (pos 0) (pos 0) 0 0 0

abbrev two_calls : List Call
two_calls = (conn_event, true, 5000) ∷ (conn_event, false, 0) ∷ []

-- A stand-in for the checksum.
abbrev count_crc : Payload → ℕ
count_crc p = p.count + p.journal_seq

-- A ready journal with one event that no block holds.
abbrev one_pending : Log
one_pending = record initial {
  ring = set initial.ring 0 conn_event;
  ring_head = 1;
  ring_count = 1;
  ring_seq = 1;
  journal_ready = true;
}

initial-IsWf : IsWf initial
initial-IsWf = record {
  storage = length-replicate ring_cap zero_event;
  head_in = omega arith;
  count_in = omega arith;
}

one_pending-IsSound : IsSound one_pending
one_pending-IsSound = record {
  wf = record {
    storage =
        omega (arith, length-set initial.ring 0 conn_event, length-replicate ring_cap zero_event);
    head_in = omega arith;
    count_in = omega arith;
  };
  counted = omega arith;
  seq_small = omega arith;
  behind = omega arith;
  slot_in = omega arith;
  blocks = length-replicate journal_slots zero_block;
  flags = length-replicate journal_slots false;
}

one_pending-Allowed : Allowed 5000 one_pending
one_pending-Allowed = record { ready = refl; in_time = refl; news = refl }

-- The block that is then written.
abbrev after_one : Log
after_one = record one_pending {
  journal_seq = add32 one_pending.journal_seq 1;
  persist_requested = false;
}

abbrev last_one : ℕ
last_one = sub32 (add32 (first_new one_pending) (block_count one_pending)) 1

one_written :
    persist_begin count_crc 5000 one_pending
    ≡ writing after_one (new_block count_crc one_pending) last_one
one_written = writing_of_Allowed count_crc 5000 one_pending one_pending-Allowed

one-Written : Written one_pending after_one (new_block count_crc one_pending) last_one
one-Written = persist_begin-Written count_crc 5000 one_pending one_pending-IsSound one_written

-- The block is written in 20 ms, while nothing else happens; `err` is the result.
abbrev quick : ℤ → Env
quick err = record {
  now = 5000;
  counter_err = pos 0;
  err = err;
  meanwhile = λ s. s;
  done = 5020;
  later = 5020;
}

abbrev late : Env
late = record {
  now = 60000;
  counter_err = pos 0;
  err = pos 0;
  meanwhile = λ s. s;
  done = 60020;
  later = 60020;
}

writes_one :
    (persist count_crc (quick (pos 0)) (Boot.initial 0 0) one_pending).block
    ≡ some (new_block count_crc one_pending)
writes_one =
    persist-block count_crc (quick (pos 0)) (Boot.initial 0 0) one_pending after_one
      (new_block count_crc one_pending) last_one one_written

ring_get_ordered-record_all_example :
    ring_get_ordered (record_all two_calls initial)
    ≡ latest (ring_get_ordered initial ++ events two_calls)
ring_get_ordered-record_all_example = ring_get_ordered-record_all two_calls initial initial-IsWf

pending-record_all_example :
    pending (record_all two_calls one_pending) ≡ latest (pending one_pending ++ events two_calls)
pending-record_all_example =
    pending-record_all two_calls one_pending one_pending-IsSound (omega arith)

finish-pending_example :
    pending (persist_finish (pos 0) 5020 (new_block count_crc one_pending) last_one after_one).0
    ≡ drop block_events (pending one_pending)
finish-pending_example =
    finish-pending 5020 (new_block count_crc one_pending) last_one one_pending after_one
      one_pending-IsSound one-Written

drain_all_example : drain count_crc 1 300000 one_pending ≡ pending one_pending
drain_all_example =
    drain_all count_crc 1 300000 one_pending one_pending-IsSound refl (omega arith) (omega arith)

persist-persist_example : Quiet (
    persist count_crc late
      (Boot.initial 0 0)
      (record_all two_calls (persist count_crc (quick (pos 0)) (Boot.initial 0 0) one_pending).log))
persist-persist_example =
    persist-persist count_crc (quick (pos 0)) late (Boot.initial 0 0) (Boot.initial 0 0) one_pending
      two_calls writes_one (omega arith) (omega arith)

persist-Failed_example :
    Failed after_one (persist count_crc (quick minus_one) (Boot.initial 0 0) one_pending)
persist-Failed_example =
    persist-Failed count_crc (quick minus_one) (Boot.initial 0 0) one_pending after_one
      (new_block count_crc one_pending) last_one one_written refl refl

-- A stored value whose checksum, 1, was damaged; all else fits slot 3.
abbrev damaged : Read Block
damaged = whole count_crc (record zero_block {
  payload = record zero_block.payload {
    magic = block_magic;
    version = block_version;
    slot = 3;
    count = 1;
  };
  crc = 7;
})

damaged_not-IsGenuine : ¬ IsGenuine count_crc 3 damaged
damaged_not-IsGenuine g = absurd (omega (arith, g.crc_fits))

settings_set-refuses_example :
    settings_set count_crc (name_of 3) damaged initial ≡ refused count_crc 3 damaged initial
settings_set-refuses_example =
    settings_set-refuses count_crc 3 damaged initial (omega arith) damaged_not-IsGenuine

settings_set-persist_begin_example :
    (settings_set count_crc
        (name_of (new_block count_crc one_pending).slot)
        (whole count_crc (new_block count_crc one_pending))
        initial
      ≡ (
        accept count_crc
            (new_block count_crc one_pending).slot
            (new_block count_crc one_pending)
            initial,
        pos 0,
      ))
    × (last_seq (new_block count_crc one_pending) ≡ last_one)
settings_set-persist_begin_example =
    settings_set-persist_begin count_crc 5000 one_pending initial after_one
      (new_block count_crc one_pending) last_one one_pending-IsSound one_written

initial-IsLoading : IsLoading initial
initial-IsLoading = record {
  wf = initial-IsWf;
  not_ready = refl;
  room = omega arith;
  slot_in = omega arith;
  blocks = length-replicate journal_slots zero_block;
  flags = length-replicate journal_slots false;
}

settings_loaded-pending_example :
    pending (settings_loaded (λ n. n) 900 (Boot.initial 0 0) initial).0
    ≡ latest (ring_get_ordered initial ++ boot_events (λ n. n) 900 (Boot.initial 0 0) initial)
settings_loaded-pending_example =
    settings_loaded-pending (λ n. n) 900 (Boot.initial 0 0) initial initial-IsLoading

-- Every line is short.
abbrev short_line : Line → ℕ
short_line line = 60

abbrev short_detail : Detail → ℕ
short_detail detail = 40

-- The third line waits once for space.
abbrev fresh : Dump
fresh = record { answers = pos 0 ∷ pos 0 ∷ eagain ∷ []; ordinal = 0; sent = [] }

dump_journal-Ends_example :
    Ends short_line short_detail 900 one_pending []
      (dump_journal short_line short_detail 900 one_pending fresh).sent
dump_journal-Ends_example = dump_journal-Ends short_line short_detail 900 one_pending fresh refl

-- Every answer is 0.
abbrev willing : Dump
willing = record { answers = []; ordinal = 0; sent = [] }

abbrev short_lines : AreShort short_line short_detail
short_lines = record { lines = λ l. omega arith; parts = λ x. omega arith }

few_details : length (details one_pending) < 2 ^ 32
unfolding details slot_details ring_details ring_get_ordered
few_details = omega arith

dump_journal-details_example :
    (dump_journal short_line short_detail 900 one_pending willing).sent
    ≡ []
      ++ (begin_of short_line short_detail 900 one_pending
          ∷ (data_lines 900 0 (details one_pending)
              ++ end_line 900 (length (details one_pending)) ∷ []))
dump_journal-details_example =
    dump_journal-details short_line short_detail short_lines 900 one_pending willing (omega arith)
      few_details refl refl
