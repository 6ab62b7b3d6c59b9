-- ===== src/ExclusiveHost/Handlers/Rest.antt =====
-- The rest period after an eviction, over any history with the same profile selected.
use totem_zmk_config.Prelude.{
  ℕ, ◌+◌, ◌≤◌, ◌<◌, ◌≡◌, sym, subst, ◌∙◌, arith, Bool, true, false, List, [], ◌∷◌, ℤ, Bool-cases,
  inl, inr, is_neg, int_eq, int_eq_refl, int_eq→≡, magnitude, length, get_or, get_or-set_self,
  get_or-set_ne, length-set, All, All-append, is_nonzero,
}
use totem_zmk_config.Config.{bg_evict_ignore_ms}
use totem_zmk_config.Host.{Conn, Radio}
use totem_zmk_config.ExclusiveHost.{
  Guard, bg_should_ignore, bg_note_evict, thrash_push, thrash_note_bg_evict,
}
use totem_zmk_config.ExclusiveHost.Evict.{
  drop_if_non_active_host, exclusive_host_evict_all, drop_known, evict, skip_evict, ignore_evict,
}
use totem_zmk_config.ExclusiveHost.Evict.Safety.{
  dropped, dropped-append, drops-IsRival, drops_cases, drops,
}
use totem_zmk_config.ExclusiveHost.Handlers.{
  Signal, on_connected, on_security, on_disconnected, on_identity, on_profile, on_evict_work,
  on_retry_work, on_fallback_work, on_bond_clear_work, handle, profile_changed,
}
use totem_zmk_config.ExclusiveHost.Handlers.History.{
  Moment, step, run, InOrder, IsQuiet, handle-Untouched,
}
use totem_zmk_config.ExclusiveHost.Handlers.Calls.{
  connected-dropped, security_changed-dropped, disconnected-dropped, identity-dropped,
  profile-dropped, bond_clear-dropped,
}

-- The profile `idx` rests up to `until`, and `a` is the profile last seen selected.
pub record IsResting (idx a : ℤ) (until : ℕ) (s : Guard) : Type 0 where
  pub known : is_neg idx ≡ false
  pub stored : magnitude idx < length s.bg_ignore_until
  pub rests : until ≤ get_or s.bg_ignore_until (magnitude idx) 0
  pub selected : s.last_active_profile ≡ a

module _ (evict_reason : ℕ) (idx a : ℤ) (until : ℕ) where
  -- No entry of a list of profiles is `idx`.
  abbrev pub Spares : List ℤ → Type 0
  Spares = All (λ j. int_eq j idx ≡ false)

  rest_ignored :
      (now : ℕ) (s : Guard)
      → IsResting idx a until s
      → now < until
      → bg_should_ignore now idx s ≡ true
  unfolding bg_should_ignore
  rest_ignored now s v h = ground arith

  note-IsResting :
      (now : ℕ) (j : ℤ) (s : Guard)
      → IsResting idx a until s
      → until ≤ now + bg_evict_ignore_ms
      → IsResting idx a until (bg_note_evict now j s)
  unfolding bg_note_evict
  note-IsResting now j s v h = grind (arith, get_or-set_self, get_or-set_ne, length-set)

  -- A change of the other fields, in the links' order.
  same_rest :
      (s t : Guard)
      → t.bg_ignore_until ≡ s.bg_ignore_until
      → t.last_active_profile ≡ s.last_active_profile
      → IsResting idx a until s
      → IsResting idx a until t
  same_rest s t e f v = record {
    known = v.known;
    stored = subst (λ l. magnitude idx < length l) (sym e) v.stored;
    rests = subst (λ l. until ≤ get_or l (magnitude idx) 0) (sym e) v.rests;
    selected = f ∙ v.selected;
  }

  drop-IsResting :
      (now : ℕ) (r : Radio) (c : Conn) (s : Guard)
      → IsResting idx a until s
      → until ≤ now + bg_evict_ignore_ms
      → IsResting idx a until (drop_if_non_active_host evict_reason now r false c s).0
  unfolding drop_if_non_active_host drop_known evict skip_evict ignore_evict thrash_note_bg_evict
      thrash_push
  drop-IsResting now r c s v h = grind (arith, note-IsResting now c.idx s, same_rest)

  drop-Spares :
      (now : ℕ) (r : Radio) (c : Conn) (s : Guard)
      → IsResting idx a until s
      → now < until
      → Spares (drops evict_reason now r c s)
  drop-Spares now r c s v h = elim (drops_cases evict_reason now r c s) [
    | inl e ↦ rw e tt
    | inr (w, e) ↦
        let held = drops-IsRival evict_reason now r c s (λ n. cc) in
        elim (Bool-cases (int_eq c.idx idx)) [
          | inl q ↦
              let same = int_eq→≡ c.idx idx q in let resting = rest_ignored now s v h in absurd cc
          | inr q ↦ rw e (q, tt)
        ]
  ]

  scan-IsResting :
      (now : ℕ) (r : Radio) (cs : List Conn) (s : Guard)
      → IsResting idx a until s
      → until ≤ now + bg_evict_ignore_ms
      → IsResting idx a until (exclusive_host_evict_all evict_reason now r false cs s).0
  unfolding exclusive_host_evict_all
  scan-IsResting now r [] s v h = v
  scan-IsResting now r (c ∷ cs) s v h =
      scan-IsResting now r cs (drop_if_non_active_host evict_reason now r false c s).0
        (drop-IsResting now r c s v h) h

  scan-Spares :
      (now : ℕ) (r : Radio) (cs : List Conn) (s : Guard)
      → IsResting idx a until s
      → until ≤ now + bg_evict_ignore_ms
      → now < until
      → Spares (dropped (exclusive_host_evict_all evict_reason now r false cs s).1)
  unfolding exclusive_host_evict_all
  scan-Spares now r [] s v h b = tt
  scan-Spares now r (c ∷ cs) s v h b =
      let (s', acts) = drop_if_non_active_host evict_reason now r false c s in
      let rest = (exclusive_host_evict_all evict_reason now r false cs s').1 in
      rw (dropped-append acts rest) (
        All-append (λ j. int_eq j idx ≡ false) (dropped acts) (dropped rest)
          (drop-Spares now r c s v b) (scan-Spares now r cs s' (drop-IsResting now r c s v h) h b))

  module _ (bond_heal : Bool) where
    quiet-IsResting :
        (now : ℕ) (r : Radio) (g : Signal) (s : Guard)
        → IsQuiet bond_heal now r g
        → IsResting idx a until s
        → IsResting idx a until (handle evict_reason bond_heal now r g s).0
    quiet-IsResting now r g s q v =
        let u = handle-Untouched bond_heal now r evict_reason g s q in
        same_rest s (handle evict_reason bond_heal now r g s).0 u.ignores u.active v

    -- The profile is still the one seen last, so nothing is forgotten.
    profile-IsResting :
        (now : ℕ) (r : Radio) (s : Guard)
        → r.active ≡ a
        → IsResting idx a until s
        → IsResting idx a until (profile_changed bond_heal now r s).0
    unfolding profile_changed
    profile-IsResting now r s e v =
        let seen = v.selected ∙ sym e in
        let same : int_eq s.last_active_profile r.active ≡ true =
          subst (λ z. int_eq s.last_active_profile z ≡ true) seen
            (int_eq_refl s.last_active_profile) in
        ground (arith, same_rest s (record s { last_active_profile = r.active }))

    signal-IsResting :
        (now : ℕ) (r : Radio) (g : Signal) (s : Guard)
        → r.active ≡ a
        → until ≤ now + bg_evict_ignore_ms
        → IsResting idx a until s
        → IsResting idx a until (handle evict_reason bond_heal now r g s).0
    unfolding handle IsQuiet
    signal-IsResting now r on_profile s e h v = profile-IsResting now r s e v
    signal-IsResting now r (on_evict_work cs) s e h v = scan-IsResting now r cs s v h
    signal-IsResting now r (on_retry_work cs) s e h v = scan-IsResting now r cs s v h
    signal-IsResting now r (on_fallback_work cs) s e h v = scan-IsResting now r cs s v h
    signal-IsResting now r (on_connected c err) s e h v =
        quiet-IsResting now r (on_connected c err) s tt v
    signal-IsResting now r (on_security c level err) s e h v =
        quiet-IsResting now r (on_security c level err) s tt v
    signal-IsResting now r (on_disconnected c reason) s e h v =
        quiet-IsResting now r (on_disconnected c reason) s tt v
    signal-IsResting now r (on_identity i) s e h v = quiet-IsResting now r (on_identity i) s tt v
    signal-IsResting now r on_bond_clear_work s e h v =
        quiet-IsResting now r on_bond_clear_work s tt v

    signal-Spares :
        (now : ℕ) (r : Radio) (g : Signal) (s : Guard)
        → until ≤ now + bg_evict_ignore_ms
        → now < until
        → IsResting idx a until s
        → Spares (dropped (handle evict_reason bond_heal now r g s).1)
    unfolding handle
    signal-Spares now r (on_evict_work cs) s h b v = scan-Spares now r cs s v h b
    signal-Spares now r (on_retry_work cs) s h b v = scan-Spares now r cs s v h b
    signal-Spares now r (on_fallback_work cs) s h b v = scan-Spares now r cs s v h b
    signal-Spares now r on_profile s h b v = rw (profile-dropped bond_heal now r s) tt
    signal-Spares now r (on_connected c err) s h b v =
        rw (connected-dropped bond_heal now r c err s) tt
    signal-Spares now r (on_security c level err) s h b v =
        rw (security_changed-dropped bond_heal now r c level err s) tt
    signal-Spares now r (on_disconnected c reason) s h b v =
        rw (disconnected-dropped bond_heal now r c reason s) tt
    signal-Spares now r (on_identity i) s h b v = rw (identity-dropped bond_heal now r i s) tt
    signal-Spares now r on_bond_clear_work s h b v = rw (bond_clear-dropped s) tt

    run-Spares_resting :
        (since : ℕ) (ms : List Moment) (s : Guard)
        → InOrder evict_reason bond_heal since ms
        → until ≤ since + bg_evict_ignore_ms
        → All (λ m. (m.radio.active ≡ a) × (m.now < until)) ms
        → IsResting idx a until s
        → Spares (dropped (run evict_reason bond_heal ms s).1)
    unfolding run InOrder
    run-Spares_resting since [] s o h b v = tt
    run-Spares_resting since (m ∷ ms) s o h b v =
        let (s', acts) = step evict_reason bond_heal m s in
        let rest = (run evict_reason bond_heal ms s').1 in
        let near : until ≤ m.now + bg_evict_ignore_ms = omega (arith, o.0, h) in
        let w = signal-IsResting m.now m.radio m.signal s b.0.0 near v in
        rw (dropped-append acts rest) (
          All-append (λ j. int_eq j idx ≡ false) (dropped acts) (dropped rest)
            (signal-Spares m.now m.radio m.signal s near b.0.1 v)
            (run-Spares_resting m.now ms s' o.1 near b.1 w))

-- A successful eviction starts the rest period.
evict-IsResting :
    (evict_reason now : ℕ) (r : Radio) (c : Conn) (s : Guard)
    → dropped (drop_if_non_active_host evict_reason now r false c s).1 ≡ c.idx ∷ []
    → is_nonzero c.disconnect_err ≡ false
    → magnitude c.idx < length s.bg_ignore_until
    → s.last_active_profile ≡ r.active
    → IsResting c.idx r.active
        (now + bg_evict_ignore_ms)
        (drop_if_non_active_host evict_reason now r false c s).0
unfolding drop_if_non_active_host drop_known evict skip_evict ignore_evict thrash_note_bg_evict
    thrash_push bg_note_evict
evict-IsResting q now r c s d ok stored sel = grind (arith, get_or-set_self, length-set)

-- An eviction at `now` that succeeds starts a rest period for its profile, while the selected profile
-- is the one seen last: as long as it stays selected, nothing that happens in time order before the
-- end of the period disconnects the evicted profile again.
pub run-Spares :
    (evict_reason : ℕ) (bond_heal : Bool) (now : ℕ) (r : Radio) (c : Conn) (s : Guard)
    (ms : List Moment)
    → dropped (drop_if_non_active_host evict_reason now r false c s).1 ≡ c.idx ∷ []
    → is_nonzero c.disconnect_err ≡ false
    → magnitude c.idx < length s.bg_ignore_until
    → s.last_active_profile ≡ r.active
    → InOrder evict_reason bond_heal now ms
    → All (λ m. (m.radio.active ≡ r.active) × (m.now < now + bg_evict_ignore_ms)) ms
    → All
        (λ j. int_eq j c.idx ≡ false)
        (dropped
          (run evict_reason bond_heal ms
            (drop_if_non_active_host evict_reason now r false c s).0).1)
run-Spares q bond_heal now r c s ms d ok stored sel o b =
    run-Spares_resting q c.idx r.active (now + bg_evict_ignore_ms) bond_heal now ms
      (drop_if_non_active_host q now r false c s).0 o (omega arith) b
      (evict-IsResting q now r c s d ok stored sel)
