-- ===== src/HidConnection/Once.antt =====
-- How often each event of a connection is recorded.
use totem_zmk_config.Prelude.{
  ℕ, ◌+◌, ◌≤◌, ◌≡◌, arith, Bool, true, false, List, [], ◌∷◌, ◌==◌, if◌then◌else◌, bool_to_nat, ℤ,
  is_nonzero, min, Option, none, some, refl,
}
use totem_zmk_config.Hevt.{Hevt, code}
use totem_zmk_config.HidConnection.{
  Bits, Link, Action, log, observed, set_security, put, conn_set_security,
  zmk_hog_subscription_observed, zmk_hog_keyboard_report_attempted, zmk_hog_keyboard_report_result,
  handle_rows, hid_log_connected, security_log_disconnected,
}

-- The calls that reach this module.
pub data Op : Type 0 where
  attempt : ℕ → Link → Bool → Op
  result : ℕ → Link → ℤ → Op
  subscribe : ℕ → Link → Op
  request_security : ℕ → ℕ → Link → ℕ → ℤ → Op
  connected : ℕ → Link → ℕ → Op
  disconnected : Link → Op

-- The new bits, whether a completion callback is asked for, and the calls.
unfoldable pub step : Op → Bits → Bits × Bool × List Action
step (attempt now l subscribed) s = zmk_hog_keyboard_report_attempted now l subscribed s
step (result now l err) s =
    let (s', acts) = zmk_hog_keyboard_report_result now l err s in (s', false, acts)
step (subscribe now l) s =
    let (s', acts) = zmk_hog_subscription_observed now l s in (s', false, acts)
step (request_security now later l sec err) s =
    let (s', acts) = conn_set_security now later l sec err s in (s', false, acts)
step (connected now l err) s = let (s', acts) = hid_log_connected now l err s in (s', false, acts)
step (disconnected l) s = (security_log_disconnected l s, false, [])

abbrev pub slot_of : Op → ℕ
slot_of (attempt now l subscribed) = l.slot
slot_of (result now l err) = l.slot
slot_of (subscribe now l) = l.slot
slot_of (request_security now later l sec err) = l.slot
slot_of (connected now l err) = l.slot
slot_of (disconnected l) = l.slot

abbrev pub is_attempt : Op → Bool
is_attempt (attempt now l subscribed) = true
is_attempt _ = false

abbrev pub is_subscribe : Op → Bool
is_subscribe (subscribe now l) = true
is_subscribe _ = false

abbrev pub is_failure : Op → Bool
is_failure (result now l err) = is_nonzero err
is_failure _ = false

-- A new connection resets the bits.
abbrev pub is_connect : Op → Bool
is_connect (connected now l err) = err == 0
is_connect _ = false

-- How many operations on a slot pass a test.
unfoldable pub count_ops : (Op → Bool) → ℕ → List Op → ℕ
count_ops test i [] = 0
count_ops test i (o ∷ os) =
    (if slot_of o == i then bool_to_nat (test o) else 0) + count_ops test i os

unfoldable pub tally : Hevt → List Action → ℕ
tally kind [] = 0
tally kind (log e ∷ acts) = bool_to_nat (e.type == code kind) + tally kind acts
tally kind (observed idx subscribed ∷ acts) = tally kind acts
tally kind (set_security sec ∷ acts) = tally kind acts

-- The rows of a kind, and the callbacks asked for, by the operations on a slot.
unfoldable pub rows : Hevt → ℕ → List Op → Bits → ℕ
rows kind i [] s = 0
rows kind i (o ∷ os) s =
    let (s', asked, acts) = step o s in
    (if slot_of o == i then tally kind acts else 0) + rows kind i os s'

unfoldable pub callbacks : ℕ → List Op → Bits → ℕ
callbacks i [] s = 0
callbacks i (o ∷ os) s =
    let (s', asked, acts) = step o s in
    (if slot_of o == i then bool_to_nat asked else 0) + callbacks i os s'

unfoldable pub after : List Op → Bits → Bits
after [] s = s
after (o ∷ os) s = after os (step o s).0

tally-handle_rows :
    (kind : Hevt) (now : ℕ) (l : Link) (h : Option ℕ)
    → code Hevt.conn_handle == code kind ≡ false
    → tally kind (handle_rows now l h) ≡ 0
unfolding tally
tally-handle_rows kind now l none ne = refl
tally-handle_rows kind now l (some handle) ne = rw ne refl

attempts_step :
    (i : ℕ) (o : Op) (s : Bits)
    → (if slot_of o == i then bool_to_nat (is_connect o) else 0) ≡ 0
    → let here = (if slot_of o == i then bool_to_nat (is_attempt o) else 0) in
      let once = min 1 (bool_to_nat (s.first_attempts i) + here) in
      ((if slot_of o == i then tally Hevt.hid_first_attempt (step o s).2 else 0)
          + bool_to_nat (s.first_attempts i)
        ≡ once)
      × (bool_to_nat ((step o s).0.first_attempts i) ≡ once)
unfolding step tally put conn_set_security zmk_hog_subscription_observed
    zmk_hog_keyboard_report_attempted zmk_hog_keyboard_report_result hid_log_connected
    security_log_disconnected
attempts_step i (attempt now l subscribed) s h = ground arith
attempts_step i (result now l err) s h = ground arith
attempts_step i (subscribe now l) s h = ground arith
attempts_step i (request_security now later l sec err) s h = ground arith
attempts_step i (connected now l err) s h =
    ground (arith, tally-handle_rows Hevt.hid_first_attempt now l l.handle refl)
attempts_step i (disconnected l) s h = ground arith

subscriptions_step :
    (i : ℕ) (o : Op) (s : Bits)
    → (if slot_of o == i then bool_to_nat (is_connect o) else 0) ≡ 0
    → let here = (if slot_of o == i then bool_to_nat (is_subscribe o) else 0) in
      let once = min 1 (bool_to_nat (s.first_subscriptions i) + here) in
      ((if slot_of o == i then tally Hevt.hid_subscribed (step o s).2 else 0)
          + bool_to_nat (s.first_subscriptions i)
        ≡ once)
      × (bool_to_nat ((step o s).0.first_subscriptions i) ≡ once)
unfolding step tally put conn_set_security zmk_hog_subscription_observed
    zmk_hog_keyboard_report_attempted zmk_hog_keyboard_report_result hid_log_connected
    security_log_disconnected
subscriptions_step i (attempt now l subscribed) s h = ground arith
subscriptions_step i (result now l err) s h = ground arith
subscriptions_step i (subscribe now l) s h = ground arith
subscriptions_step i (request_security now later l sec err) s h = ground arith
subscriptions_step i (connected now l err) s h =
    ground (arith, tally-handle_rows Hevt.hid_subscribed now l l.handle refl)
subscriptions_step i (disconnected l) s h = ground arith

-- During one connection of a slot, with no other made in it, the first attempt to send a report and
-- the first subscription are recorded exactly once: there is one row if there is such an event and
-- the slot's bit was not set before, and none else, whatever happens on other slots.
pub rows_once :
    (i : ℕ) (os : List Op) (s : Bits)
    → count_ops is_connect i os ≡ 0
    → (rows Hevt.hid_first_attempt i os s + bool_to_nat (s.first_attempts i)
        ≡ min 1 (bool_to_nat (s.first_attempts i) + count_ops is_attempt i os))
      × (rows Hevt.hid_subscribed i os s + bool_to_nat (s.first_subscriptions i)
          ≡ min 1 (bool_to_nat (s.first_subscriptions i) + count_ops is_subscribe i os))
unfolding rows count_ops
rows_once i [] s h = (ground arith, ground arith)
rows_once i (o ∷ os) s h =
    let a = attempts_step i o s (omega arith) in
    let b = subscriptions_step i o s (omega arith) in
    let rest = rows_once i os (step o s).0 (omega arith) in
    (omega (arith, a.0, a.1, rest.0), omega (arith, b.0, b.1, rest.1))

callbacks_step :
    (i : ℕ) (o : Op) (s : Bits)
    → let here = λ (b : Bool). if slot_of o == i then bool_to_nat b else 0 in
      here (step o s).1 + bool_to_nat (s.tracked_sends i)
      ≤ bool_to_nat ((step o s).0.tracked_sends i) + here (is_failure o) + here (is_connect o)
unfolding step put conn_set_security zmk_hog_subscription_observed zmk_hog_keyboard_report_attempted
    zmk_hog_keyboard_report_result hid_log_connected security_log_disconnected
callbacks_step i (attempt now l subscribed) s = ground arith
callbacks_step i (result now l err) s = ground arith
callbacks_step i (subscribe now l) s = ground arith
callbacks_step i (request_security now later l sec err) s = ground arith
callbacks_step i (connected now l err) s = ground arith
callbacks_step i (disconnected l) s = ground arith

callbacks_balance :
    (i : ℕ) (os : List Op) (s : Bits)
    → callbacks i os s + bool_to_nat (s.tracked_sends i)
      ≤ bool_to_nat ((after os s).tracked_sends i)
        + count_ops is_failure i os
        + count_ops is_connect i os
unfolding callbacks count_ops after
callbacks_balance i [] s = ground arith
callbacks_balance i (o ∷ os) s =
    omega (arith, callbacks_step i o s, callbacks_balance i os (step o s).0)

-- Whatever happens, and starting from any bits, a slot asks for at most one completion callback, and
-- one more for each report that failed and each new connection in it; the bound is one less where
-- the slot's bit is set at the start.
pub callbacks_bound :
    (i : ℕ) (os : List Op) (s : Bits)
    → callbacks i os s + bool_to_nat (s.tracked_sends i)
      ≤ 1 + count_ops is_failure i os + count_ops is_connect i os
callbacks_bound i os s = ground (arith, callbacks_balance i os s)
