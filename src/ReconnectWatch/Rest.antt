-- ===== src/ReconnectWatch/Rest.antt =====
-- Without a new cause to arm it, the ladder comes to its end.
use totem_zmk_config.Prelude.{
  ℕ, ◌+◌, ◌-◌, ◌≤◌, ◌≡◌, arith, Bool, true, false, List, [], ◌∷◌, none, All,
}
use totem_zmk_config.Host.{Radio}
use totem_zmk_config.ReconnectWatch.{
  Watch, step_none, connected, security_changed, reconnect_watch_init,
}
use totem_zmk_config.ReconnectWatch.Ladder.{
  Signal, on_timer, on_arm_work, on_storm, on_profile, on_connected, on_security, on_commit, handle,
  IsArmed, rank, rank_bound, fire-rank, reset-IsArmed, handle-IsArmed, at_rest,
}

-- A signal, with the uptime and the radio at that time.
pub record Moment : Type 0 where
  pub now : ℕ
  pub radio : Radio
  pub signal : Signal

pub run : Bool → List Moment → Watch → Watch
run on [] s = s
run on (m ∷ ms) s = run on ms (handle on m.now m.radio m.signal s)

-- The signals that can arm the ladder: a link that went down, a storm, another profile.
abbrev pub can_arm : Signal → Bool
can_arm on_arm_work = true
can_arm on_storm = true
can_arm on_profile = true
can_arm _ = false

-- How many signals are runs of the work.
abbrev pub fires : Signal → ℕ
fires (on_timer cs) = 1
fires _ = 0

unfoldable pub count_fires : List Moment → ℕ
count_fires [] = 0
count_fires (m ∷ ms) = fires m.signal + count_fires ms

-- A run takes a step off the ladder, and the other signals add none.
handle-rank :
    (on : Bool) (now : ℕ) (r : Radio) (g : Signal) (s : Watch)
    → IsArmed s
    → can_arm g ≡ false
    → rank (handle on now r g s).next_step ≤ rank s.next_step - fires g
unfolding handle connected security_changed reconnect_watch_init
handle-rank on now r (on_timer cs) s v h =
    (fire-rank (record { now = now; radio = r; conns = cs }) s v).1
handle-rank on now r on_arm_work s v h = absurd ground arith
handle-rank on now r on_storm s v h = absurd ground arith
handle-rank on now r on_profile s v h = absurd ground arith
handle-rank on now r (on_connected err) s v h = ground (arith, reset-IsArmed now r s)
handle-rank on now r (on_security level) s v h = ground (arith, reset-IsArmed now r s)
handle-rank on now r on_commit s v h = omega arith

run-rank :
    (on : Bool) (ms : List Moment) (s : Watch)
    → IsArmed s
    → All (λ m. can_arm m.signal ≡ false) ms
    → IsArmed (run on ms s) × (rank (run on ms s).next_step ≤ rank s.next_step - count_fires ms)
unfolding run count_fires
run-rank on [] s v h = (v, omega arith)
run-rank on (m ∷ ms) s v h =
    let s' = handle on m.now m.radio m.signal s in
    let rest = run-rank on ms s' (handle-IsArmed on m.now m.radio m.signal s v) h.1 in
    (rest.0, omega (arith, rest.1, handle-rank on m.now m.radio m.signal s v h.0))

-- From a state in which a step waits exactly when the work is scheduled, and over any signals of which
-- none is a link that went down, a storm or a change of the profile, which can arm the ladder again,
-- the ladder is over once three of them are moments at which the work can run: whatever connections
-- and changes of security come in between, and whatever the radio and the links are at each.
pub run-rest :
    (on_active_down : Bool) (ms : List Moment) (s : Watch)
    → IsArmed s
    → All (λ m. can_arm m.signal ≡ false) ms
    → 3 ≤ count_fires ms
    → let s' = run on_active_down ms s in (s'.next_step ≡ step_none) × (s'.timer ≡ none)
run-rest on ms s v h enough =
    let last = run-rank on ms s v h in
    at_rest (run on ms s) last.0 (omega (arith, last.1, rank_bound s.next_step))
