-- ===== src/ExclusiveHost/Handlers/History.antt =====
-- The two limits on evictions, over any history of callbacks and scans.
use totem_zmk_config.Prelude.{
  ℕ, ◌≤◌, ◌≡◌, arith, Bool, true, false, List, [], ◌∷◌, ◌++◌, int_eq, ◌∙◌, Bool-cases, inl, inr,
}
use totem_zmk_config.Host.{Conn, Radio}
use totem_zmk_config.ExclusiveHost.{
  Guard, Action, class_a_note_auth_event, class_a_add, class_a_store,
}
use totem_zmk_config.ExclusiveHost.Handlers.{
  Signal, on_connected, on_security, on_disconnected, on_identity, on_profile, on_evict_work,
  on_retry_work, on_fallback_work, on_bond_clear_work, handle, connected, security_changed,
  disconnected, identity_resolved, class_a_of, heal_of, bond_heal_note_auth_failure,
  bond_heal_note_auth_ok, bond_heal_clear_active_work_handler,
}

-- A signal, with the uptime and what the radio then answers.
pub record Moment : Type 0 where
  pub now : ℕ
  pub radio : Radio
  pub signal : Signal

module _ (evict_reason : ℕ) (bond_heal : Bool) where
  abbrev pub step : Moment → Guard → Guard × List Action
  step m = handle evict_reason bond_heal m.now m.radio m.signal

  unfoldable pub run : List Moment → Guard → Guard × List Action
  run [] s = (s, [])
  run (m ∷ ms) s = let (s', acts) = step m s in let (s'', rest) = run ms s' in (s'', acts ++ rest)

  -- The moments come in time order, none before `since`.
  unfoldable pub InOrder : ℕ → List Moment → Type 0
  InOrder since [] = Unit
  InOrder since (m ∷ ms) = (since ≤ m.now) × InOrder m.now ms

  -- The uptime of the last moment.
  unfoldable pub last_time : ℕ → List Moment → ℕ
  last_time since [] = since
  last_time since (m ∷ ms) = last_time m.now ms

-- The fields that limit evictions are the same.
pub record Untouched (s t : Guard) : Type 0 where
  pub ignores : t.bg_ignore_until ≡ s.bg_ignore_until
  pub ring : t.thrash_ring ≡ s.thrash_ring
  pub head : t.thrash_ring_head ≡ s.thrash_ring_head
  pub count : t.thrash_ring_count ≡ s.thrash_ring_count
  pub active : t.last_active_profile ≡ s.last_active_profile

Untouched-trans : (s t u : Guard) → Untouched s t → Untouched t u → Untouched s u
Untouched-trans s t u v w = record {
  ignores = w.ignores ∙ v.ignores;
  ring = w.ring ∙ v.ring;
  head = w.head ∙ v.head;
  count = w.count ∙ v.count;
  active = w.active ∙ v.active;
}

note_auth-Untouched :
    (now : ℕ) (r : Radio) (fail : Bool) (s : Guard)
    → Untouched s (class_a_note_auth_event now r fail s).0
unfolding class_a_note_auth_event class_a_add class_a_store
note_auth-Untouched now r false s = ground arith
note_auth-Untouched now r true s = ground arith

module _ (bond_heal : Bool) (now : ℕ) (r : Radio) where
  class_a_of-Untouched :
      (level err : ℕ) (s : Guard) → Untouched s (class_a_of bond_heal now r level err s).0
  unfolding class_a_of
  class_a_of-Untouched level err s =
      ground (arith, note_auth-Untouched now r true s, note_auth-Untouched now r false s)

  heal_of-Untouched :
      (level err : ℕ) (s : Guard) → Untouched s (heal_of bond_heal now r level err s).0
  unfolding heal_of bond_heal_note_auth_failure bond_heal_note_auth_ok
  heal_of-Untouched level err s = ground arith

  security_changed-Untouched :
      (c : Conn) (level err : ℕ) (s : Guard)
      → Untouched s (security_changed bond_heal now r c level err s).0
  unfolding security_changed
  security_changed-Untouched c level err s =
      let judged = (class_a_of bond_heal now r level err s).0 in
      elim (Bool-cases (int_eq c.idx r.active)) [
        | inl e ↦ rw e (
            Untouched-trans s judged _ (class_a_of-Untouched level err s)
              (heal_of-Untouched level err judged))
        | inr e ↦ rw e ground arith
      ]

  disconnected-Untouched :
      (c : Conn) (reason : ℕ) (s : Guard) → Untouched s (disconnected bond_heal now r c reason s).0
  unfolding disconnected bond_heal_note_auth_failure
  disconnected-Untouched c reason s = ground (arith, note_auth-Untouched now r true s)

  -- A handler of anything but a scan or a change of profile.
  unfoldable pub IsQuiet : Signal → Type 0
  IsQuiet on_profile = ⊥
  IsQuiet (on_evict_work cs) = ⊥
  IsQuiet (on_retry_work cs) = ⊥
  IsQuiet (on_fallback_work cs) = ⊥
  IsQuiet _ = Unit

  pub handle-Untouched :
      (evict_reason : ℕ) (g : Signal) (s : Guard)
      → IsQuiet g
      → Untouched s (handle evict_reason bond_heal now r g s).0
  unfolding handle IsQuiet connected identity_resolved bond_heal_clear_active_work_handler
  handle-Untouched q (on_connected c err) s h = ground arith
  handle-Untouched q (on_security c level err) s h = security_changed-Untouched c level err s
  handle-Untouched q (on_disconnected c reason) s h = disconnected-Untouched c reason s
  handle-Untouched q (on_identity idx) s h = ground arith
  handle-Untouched q on_profile s h = elim h [ ]
  handle-Untouched q (on_evict_work cs) s h = elim h [ ]
  handle-Untouched q (on_retry_work cs) s h = elim h [ ]
  handle-Untouched q (on_fallback_work cs) s h = elim h [ ]
  handle-Untouched q on_bond_clear_work s h = ground arith
