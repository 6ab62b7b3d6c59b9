-- ===== src/HidConnection/Tests.antt =====
-- The theorems on the first events of a connection, at a concrete history.
use totem_zmk_config.Prelude.{◌+◌, ◌≤◌, ◌≡◌, refl, true, List, [], ◌∷◌, pos, none, min}
use totem_zmk_config.Hevt.{Hevt}
use totem_zmk_config.HidConnection.{Link, initial}
use totem_zmk_config.HidConnection.Once.{
  Op, attempt, result, subscribe, connected, rows, count_ops, callbacks, is_attempt, is_subscribe,
  is_failure, is_connect, rows_once, callbacks_bound,
}

abbrev link : Link
link = record { slot = 1; idx = pos 0; active = pos 0; handle = none; security = 2 }

abbrev other : Link
other = record link { slot = 2 }

-- Two reports, the first of which fails, while another computer connects.
abbrev history : List Op
history =
    subscribe 10 link
    ∷ attempt 11 link true
    ∷ result 12 link (pos 5)
    ∷ connected 13 other 0
    ∷ attempt 14 link true
    ∷ []

history_quiet : count_ops is_connect 1 history ≡ 0
unfolding count_ops
history_quiet = refl

rows_once_example :
    (rows Hevt.hid_first_attempt 1 history initial + 0 ≡ min 1 (0 + count_ops is_attempt 1 history))
    × (rows Hevt.hid_subscribed 1 history initial + 0
        ≡ min 1 (0 + count_ops is_subscribe 1 history))
rows_once_example = rows_once 1 history initial history_quiet

callbacks_bound_example :
    callbacks 1 history initial + 0
    ≤ 1 + count_ops is_failure 1 history + count_ops is_connect 1 history
callbacks_bound_example = callbacks_bound 1 history initial
