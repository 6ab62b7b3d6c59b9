-- ===== src/ExclusiveHost/Handlers/Capped.antt =====
-- The cap on evictions in the window, over any history of callbacks and scans.
use totem_zmk_config.Prelude.{
  ℕ, refl, arith, Bool, not, ◌&&◌, List, [], ◌∷◌, Bool-cases, inl, inr, is_neg, int_eq,
  length-replicate,
}
use totem_zmk_config.Host.{Radio}
use totem_zmk_config.ExclusiveHost.{
  Guard, initial, thrash_win_count, class_a_note_auth_event, thrash_clear, bg_clear_ignores,
  count_back, thrash_ring_size,
}
use totem_zmk_config.ExclusiveHost.Evict.Cap.{IsCapped, IsCapped-later, scan-IsCapped, same_ring}
use totem_zmk_config.ExclusiveHost.Handlers.{
  Signal, on_connected, on_security, on_disconnected, on_identity, on_profile, on_evict_work,
  on_retry_work, on_fallback_work, on_bond_clear_work, handle, profile_changed, forget,
}
use totem_zmk_config.ExclusiveHost.Handlers.History.{
  Moment, step, run, InOrder, last_time, IsQuiet, handle-Untouched,
}

module _ (evict_reason : ℕ) (bond_heal : Bool) where
  forget-ring :
      (now : ℕ) (r : Radio) (s : Guard) → IsCapped now s → IsCapped now (forget bond_heal now r s).0
  unfolding forget thrash_clear bg_clear_ignores class_a_note_auth_event thrash_win_count count_back
  forget-ring now r s v = ground (arith, v.ring)

  profile_changed-IsCapped :
      (now : ℕ) (r : Radio) (s : Guard)
      → IsCapped now s
      → IsCapped now (profile_changed bond_heal now r s).0
  unfolding profile_changed
  profile_changed-IsCapped now r s v =
      let seen = record s { last_active_profile = r.active } in
      let kept = same_ring evict_reason now r s seen refl refl refl v in
      elim (Bool-cases
        (not (is_neg s.last_active_profile) && not (int_eq s.last_active_profile r.active))) [
          | inl e ↦ rw e (forget-ring now r seen kept)
          | inr e ↦ rw e kept
        ]

  quiet-IsCapped :
      (now : ℕ) (r : Radio) (g : Signal) (s : Guard)
      → IsQuiet bond_heal now r g
      → IsCapped now s
      → IsCapped now (handle evict_reason bond_heal now r g s).0
  quiet-IsCapped now r g s q v =
      let u = handle-Untouched bond_heal now r evict_reason g s q in
      same_ring evict_reason now r s (handle evict_reason bond_heal now r g s).0 u.ring u.head
        u.count v

  signal-IsCapped :
      (now : ℕ) (r : Radio) (g : Signal) (s : Guard)
      → IsCapped now s
      → IsCapped now (handle evict_reason bond_heal now r g s).0
  unfolding handle IsQuiet
  signal-IsCapped now r on_profile s v = profile_changed-IsCapped now r s v
  signal-IsCapped now r (on_evict_work cs) s v = scan-IsCapped evict_reason now r cs s v
  signal-IsCapped now r (on_retry_work cs) s v = scan-IsCapped evict_reason now r cs s v
  signal-IsCapped now r (on_fallback_work cs) s v = scan-IsCapped evict_reason now r cs s v
  signal-IsCapped now r (on_connected c err) s v = quiet-IsCapped now r (on_connected c err) s tt v
  signal-IsCapped now r (on_security c level err) s v =
      quiet-IsCapped now r (on_security c level err) s tt v
  signal-IsCapped now r (on_disconnected c reason) s v =
      quiet-IsCapped now r (on_disconnected c reason) s tt v
  signal-IsCapped now r (on_identity idx) s v = quiet-IsCapped now r (on_identity idx) s tt v
  signal-IsCapped now r on_bond_clear_work s v = quiet-IsCapped now r on_bond_clear_work s tt v

  -- Whatever happens, in time order, to a state whose window holds no more evictions than the cap,
  -- the window still holds no more than the cap at the end.
  pub run-IsCapped :
      (since : ℕ) (ms : List Moment) (s : Guard)
      → InOrder evict_reason bond_heal since ms
      → IsCapped since s
      → IsCapped (last_time evict_reason bond_heal since ms) (run evict_reason bond_heal ms s).0
  unfolding run InOrder last_time
  run-IsCapped since [] s o v = v
  run-IsCapped since (m ∷ ms) s o v =
      run-IsCapped m.now ms (step evict_reason bond_heal m s).0 o.1
        (signal-IsCapped m.now m.radio m.signal s (IsCapped-later since m.now s o.0 v))

-- The window is empty at the start.
pub initial-IsCapped : (now n : ℕ) → IsCapped now (initial n)
unfolding thrash_win_count count_back
initial-IsCapped now n = ground (arith, length-replicate 0 thrash_ring_size)
