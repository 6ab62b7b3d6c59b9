-- ===== src/HidReports/Fate.antt =====
-- What becomes of the reports that the worker takes from the queue.
use totem_zmk_config.Prelude.{
  ℕ, suc, ◌+◌, ◌≤◌, ◌≡◌, arith, Bool, List, [], ◌∷◌, ◌++◌, ◌==◌, if◌then◌else◌, ℤ, bool_to_nat,
}
use totem_zmk_config.HidReports.{
  Count, Worker, Report, no_host_drop, dequeued, notify_accepted, notify_failed, msgq_get,
  active_profile_conn, totem_hid_report_observed, notify_cb,
}

-- The wrapped calls that touch the worker's variables.
pub data Op : Type 0 where
  get : ℤ → Bool → Report → ℤ → Op
  find_conn : ℤ → Bool → Bool → Op
  observe : ℤ → Bool → Op
  notify : Bool → ℤ → Op

unfoldable pub step : Op → Worker → Worker × List Count
step (get profile worker report err) w = msgq_get profile worker report err w
step (find_conn profile worker found) w = active_profile_conn profile worker found w
step (observe profile subscribed) w = totem_hid_report_observed profile subscribed w
step (notify worker err) w = notify_cb worker err w

unfoldable pub run : List Op → Worker → Worker × List Count
run [] w = (w, [])
run (o ∷ os) w = let (w', calls) = step o w in let (w'', rest) = run os w' in (w'', calls ++ rest)

-- How many calls count for a stage.
unfoldable pub tally : ℕ → List Count → ℕ
tally stage [] = 0
tally stage (c ∷ cs) = let rest = tally stage cs in if c.stage == stage then suc rest else rest

tally-append :
    (stage : ℕ) (xs ys : List Count) → tally stage (xs ++ ys) ≡ tally stage xs + tally stage ys
unfolding tally
tally-append stage [] ys = omega arith
tally-append stage (c ∷ xs) ys = ground (arith, tally-append stage xs ys)

abbrev pub observations : List Op → ℕ
observations [] = 0
observations (observe profile subscribed ∷ os) = suc (observations os)
observations (_ ∷ os) = observations os

step-drops :
    (o : Op) (w : Worker)
    → tally no_host_drop (step o w).1 + bool_to_nat (step o w).0.dequeued_report
      ≤ tally dequeued (step o w).1 + bool_to_nat w.dequeued_report
unfolding step tally msgq_get active_profile_conn totem_hid_report_observed notify_cb
step-drops (get profile worker report err) w = ground arith
step-drops (find_conn profile worker found) w = ground arith
step-drops (observe profile subscribed) w = ground arith
step-drops (notify worker err) w = ground arith

-- However the wrapped calls follow each other, there are no more reports counted as dropped for want
-- of a host than reports that the worker took from the queue, one that it holds at the start
-- included.
pub run-drops :
    (os : List Op) (w : Worker)
    → tally no_host_drop (run os w).1 + bool_to_nat (run os w).0.dequeued_report
      ≤ tally dequeued (run os w).1 + bool_to_nat w.dequeued_report
unfolding run tally
run-drops [] w = omega arith
run-drops (o ∷ os) w =
    let (w', calls) = step o w in
    let rest = (run os w').1 in
    omega (
      arith,
      run-drops os w',
      step-drops o w,
      tally-append no_host_drop calls rest,
      tally-append dequeued calls rest,
    )

abbrev pub notified : List Count → ℕ
notified cs = tally notify_accepted cs + tally notify_failed cs

step-notified :
    (o : Op) (w : Worker)
    → notified (step o w).1 + bool_to_nat (step o w).0.keyboard_notify
      ≤ observations (o ∷ []) + bool_to_nat w.keyboard_notify
unfolding step tally msgq_get active_profile_conn totem_hid_report_observed notify_cb
step-notified (get profile worker report err) w = ground arith
step-notified (find_conn profile worker found) w = ground arith
step-notified (observe profile subscribed) w = ground arith
step-notified (notify worker err) w = ground arith

observations-cons :
    (o : Op) (os : List Op) → observations (o ∷ os) ≡ observations (o ∷ []) + observations os
observations-cons (get profile worker report err) os = omega arith
observations-cons (find_conn profile worker found) os = omega arith
observations-cons (observe profile subscribed) os = omega arith
observations-cons (notify worker err) os = omega arith

-- However the wrapped calls follow each other, there are no more notifications counted, accepted
-- or failed, than keyboard reports that were announced, one announced before the start included.
pub run-notified :
    (os : List Op) (w : Worker)
    → notified (run os w).1 + bool_to_nat (run os w).0.keyboard_notify
      ≤ observations os + bool_to_nat w.keyboard_notify
unfolding run tally
run-notified [] w = omega arith
run-notified (o ∷ os) w =
    let (w', calls) = step o w in
    let rest = (run os w').1 in
    omega (
      arith,
      run-notified os w',
      step-notified o w,
      observations-cons o os,
      tally-append notify_accepted calls rest,
      tally-append notify_failed calls rest,
    )
