-- ===== src/Journal/Persist/Limit.antt =====
-- The flash rate limit, and what a failed write leaves.
use totem_zmk_config.Prelude.{
  ℕ, ◌+◌, ◌≤◌, ◌<◌, ◌≡◌, refl, ◌∙◌, arith, inl, inr, Bool, true, ◌⊎◌, none, some, List, [], ◌∷◌,
  is_nonzero, ℤ,
}
use totem_zmk_config.Config.{persist_min_interval_ms}
use totem_zmk_config.Boot.{Boot}
use totem_zmk_config.Journal.{Log, reschedule, record_event, schedule_persist_coalesced, wait_ms}
use totem_zmk_config.Journal.Layout.{Payload, Block}
use totem_zmk_config.Journal.Record.{Call, record_all, schedule-request}
use totem_zmk_config.Journal.Persist.{
  Begin, not_ready, too_soon, nothing_new, writing, persist_begin, persist_finish, rate_limited,
  Env, Outcome, persist, after_begin,
}

-- Whether something goes to flash: a block, or the boot counter with it.
abbrev pub Quiet : Outcome → Type 0
Quiet o = (o.block ≡ none) × (o.counter ≡ none)

record_event_time :
    (e : _) (p : Bool) (now : ℕ) (s : Log)
    → (record_event e p now s).0.last_persist_uptime_ms ≡ s.last_persist_uptime_ms
unfolding record_event
record_event_time e p now s = ground arith

record_all_time :
    (cs : List Call) (s : Log) → (record_all cs s).last_persist_uptime_ms ≡ s.last_persist_uptime_ms
unfolding record_all
record_all_time [] s = refl
record_all_time ((e, p, now) ∷ cs) s =
    record_all_time cs (record_event e p now s).0 ∙ record_event_time e p now s

-- Within the interval nothing is written.
persist_limited :
    (crc32 : Payload → ℕ) (env : Env) (b : Boot) (s : Log)
    → rate_limited env.now s ≡ true
    → Quiet (persist crc32 env b s)
unfolding persist persist_begin
persist_limited crc32 env b s h = ground arith

finish_time :
    (err : ℤ) (now : ℕ) (block : Block) (last : ℕ) (s : Log)
    → (persist_finish err now block last s).0.last_persist_uptime_ms ≡ now
unfolding persist_finish
finish_time err now block last s = ground arith

-- A call that writes a block notes the time after the write, whether the write succeeds or not.
after_begin_time :
    (crc32 : Payload → ℕ) (env : Env) (b : Boot) (s : Log) (r : Begin)
    → ((after_begin crc32 env b s r).block ≡ none)
      ⊎ ((after_begin crc32 env b s r).log.last_persist_uptime_ms ≡ env.done)
unfolding after_begin
after_begin_time crc32 env b s not_ready = inl refl
after_begin_time crc32 env b s too_soon = inl refl
after_begin_time crc32 env b s (nothing_new s') = inl refl
after_begin_time crc32 env b s (writing s' block last) =
    let s'' = (persist_finish env.err env.done block last (env.meanwhile s')).0 in
    inr (
      ground (
        arith,
        finish_time env.err env.done block last (env.meanwhile s'),
        schedule-request true env.later s'',
      ))

persist_time :
    (crc32 : Payload → ℕ) (env : Env) (b : Boot) (s : Log) {block : Block}
    → (persist crc32 env b s).block ≡ some block
    → (persist crc32 env b s).log.last_persist_uptime_ms ≡ env.done
unfolding persist
persist_time crc32 env b s h =
    ground (arith, after_begin_time crc32 env b s (persist_begin crc32 env.now s))

-- What is decided is written.
pub persist-block :
    (crc32 : Payload → ℕ) (env : Env) (b : Boot) (s s' : Log) (block : Block) (last : ℕ)
    → persist_begin crc32 env.now s ≡ writing s' block last
    → (persist crc32 env b s).block ≡ some block
unfolding persist after_begin
persist-block crc32 env b s s' block last h = rw h refl

limited_since :
    (now : ℕ) (s : Log) (done : ℕ)
    → s.last_persist_uptime_ms ≡ done
    → 0 < done
    → now < done + persist_min_interval_ms
    → rate_limited now s ≡ true
limited_since now s done e h l = ground arith

-- The flash rate limit: after a call that wrote a block, and whatever is recorded since, no call
-- before the interval has passed writes anything, to the journal or to the boot counter. It holds
-- for writes that fail too, and whatever other threads did to the log during the write.
pub persist-persist :
    (crc32 : Payload → ℕ) (env env' : Env) (b b' : Boot) (s : Log) (cs : List Call) {block : Block}
    → (persist crc32 env b s).block ≡ some block
    → 0 < env.done
    → env'.now < env.done + persist_min_interval_ms
    → Quiet (persist crc32 env' b' (record_all cs (persist crc32 env b s).log))
persist-persist crc32 env env' b b' s cs h pos_time early =
    let o = persist crc32 env b s in
    persist_limited crc32 env' b' (record_all cs o.log) (
      limited_since env'.now (record_all cs o.log) env.done
        (record_all_time cs o.log ∙ persist_time crc32 env b s h) pos_time early)

-- What a failed write leaves, in terms of the log `t` that it found after the write.
pub record Failed (t : Log) (o : Outcome) : Type 0 where
  pub progress : o.log.persisted_event_seq ≡ t.persisted_event_seq
  pub slot : o.log.next_slot ≡ t.next_slot
  pub blocks : o.log.restored_blocks ≡ t.restored_blocks
  pub flags : o.log.restored_valid ≡ t.restored_valid
  pub requested : o.log.persist_requested ≡ true
  pub retry : (w : ℕ) × (o.wake ≡ reschedule w) × (w ≤ persist_min_interval_ms)

wait_bound : (now : ℕ) (s : Log) → wait_ms true now s ≤ persist_min_interval_ms
wait_bound now s = ground arith

after-Failed :
    (crc32 : Payload → ℕ) (env : Env) (b : Boot) (s s' : Log) (block : Block) (last : ℕ)
    → is_nonzero env.err ≡ true
    → (env.meanwhile s').journal_ready ≡ true
    → Failed (env.meanwhile s') (after_begin crc32 env b s (writing s' block last))
unfolding after_begin persist_finish schedule_persist_coalesced
after-Failed crc32 env b s s' block last e r =
    let s'' = (persist_finish env.err env.done block last (env.meanwhile s')).0 in
    record {
      progress = ground arith;
      slot = ground arith;
      blocks = ground arith;
      flags = ground arith;
      requested = ground arith;
      retry = (wait_ms true env.later s'', ground arith, wait_bound env.later s'');
    }

-- A failed write in a journal that stays ready: no event counts as saved, the slot and what is known of the journal stay as they
-- were, and the call asks for another try, at the latest when the interval is over.
pub persist-Failed :
    (crc32 : Payload → ℕ) (env : Env) (b : Boot) (s s' : Log) (block : Block) (last : ℕ)
    → persist_begin crc32 env.now s ≡ writing s' block last
    → is_nonzero env.err ≡ true
    → (env.meanwhile s').journal_ready ≡ true
    → Failed (env.meanwhile s') (persist crc32 env b s)
unfolding persist
persist-Failed crc32 env b s s' block last h e r =
    rw h (after-Failed crc32 env b s s' block last e r)
