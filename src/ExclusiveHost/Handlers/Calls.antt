-- ===== src/ExclusiveHost/Handlers/Calls.antt =====
-- What each callback asks for: only a scan disconnects.
use totem_zmk_config.Prelude.{ℕ, ◌≡◌, refl, arith, Bool, true, false, [], ℤ}
use totem_zmk_config.Host.{Conn, Radio}
use totem_zmk_config.ExclusiveHost.{Guard, class_a_note_auth_event}
use totem_zmk_config.ExclusiveHost.Evict.Safety.{dropped, dropped-append}
use totem_zmk_config.ExclusiveHost.Handlers.{
  connected, security_changed, disconnected, identity_resolved, profile_changed, class_a_of,
  heal_of, forget, bond_heal_note_auth_failure, bond_heal_clear_active_work_handler,
}

note_auth-dropped :
    (now : ℕ) (r : Radio) (fail : Bool) (s : Guard)
    → dropped (class_a_note_auth_event now r fail s).1 ≡ []
unfolding class_a_note_auth_event
note_auth-dropped now r true s = ground arith
note_auth-dropped now r false s = ground arith

pub bond_clear-dropped : (s : Guard) → dropped (bond_heal_clear_active_work_handler s).1 ≡ []
unfolding bond_heal_clear_active_work_handler
bond_clear-dropped s = refl

module _ (bond_heal : Bool) (now : ℕ) (r : Radio) where
  pub connected-dropped :
      (c : Conn) (err : ℕ) (s : Guard) → dropped (connected bond_heal now r c err s).1 ≡ []
  unfolding connected
  connected-dropped c err s = ground arith

  pub identity-dropped :
      (idx : ℤ) (s : Guard) → dropped (identity_resolved bond_heal now r idx s).1 ≡ []
  unfolding identity_resolved
  identity-dropped idx s = refl

  judged-dropped :
      (level err : ℕ) (s : Guard) → dropped (class_a_of bond_heal now r level err s).1 ≡ []
  unfolding class_a_of
  judged-dropped level err s =
      ground (arith, note_auth-dropped now r true s, note_auth-dropped now r false s)

  healed-dropped :
      (level err : ℕ) (s : Guard) → dropped (heal_of bond_heal now r level err s).1 ≡ []
  unfolding heal_of bond_heal_note_auth_failure
  healed-dropped level err s = ground arith

  pub security_changed-dropped :
      (c : Conn) (level err : ℕ) (s : Guard)
      → dropped (security_changed bond_heal now r c level err s).1 ≡ []
  unfolding security_changed
  security_changed-dropped c level err s =
      grind (arith, dropped-append, judged-dropped, healed-dropped)

  pub disconnected-dropped :
      (c : Conn) (reason : ℕ) (s : Guard) → dropped (disconnected bond_heal now r c reason s).1 ≡ []
  unfolding disconnected bond_heal_note_auth_failure
  disconnected-dropped c reason s = grind (arith, dropped-append, note_auth-dropped)

  pub profile-dropped : (s : Guard) → dropped (profile_changed bond_heal now r s).1 ≡ []
  unfolding profile_changed forget
  profile-dropped s = grind (arith, dropped-append, note_auth-dropped)
