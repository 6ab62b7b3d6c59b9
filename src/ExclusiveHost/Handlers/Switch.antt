-- ===== src/ExclusiveHost/Handlers/Switch.antt =====
-- A change of the selected profile lifts the limits on evictions, so that the next scan acts.
use totem_zmk_config.Prelude.{
  ℕ, ◌-◌, ◌≡◌, refl, ap, ◌∙◌, arith, Bool, false, List, [], ◌∷◌, if◌then◌else◌, take, ℤ, is_neg,
  is_nonzero, int_eq, replicate, length, length-replicate, get_or, get_or-replicate, magnitude, All,
}
use totem_zmk_config.Config.{bg_evict_cap}
use totem_zmk_config.Host.{Conn, Radio}
use totem_zmk_config.ExclusiveHost.{
  Guard, bg_should_ignore, bg_clear_ignores, thrash_clear, thrash_win_count, count_back,
  class_a_note_auth_event,
}
use totem_zmk_config.ExclusiveHost.Thrash.{IsRing}
use totem_zmk_config.ExclusiveHost.Evict.{exclusive_host_evict_all}
use totem_zmk_config.ExclusiveHost.Evict.Safety.{dropped}
use totem_zmk_config.ExclusiveHost.Evict.Whole.{AreApart, rival, targets, evict-targets}
use totem_zmk_config.ExclusiveHost.Handlers.{profile_changed, forget}

-- No eviction is ignored and none counted.
pub record IsFree (s : Guard) : Type 0 where
  pub none_ignored : s.bg_ignore_until ≡ replicate (length s.bg_ignore_until) 0
  pub none_counted : s.thrash_ring_count ≡ 0

free_ignores : (now : ℕ) (i : ℤ) (s : Guard) → IsFree s → bg_should_ignore now i s ≡ false
unfolding bg_should_ignore
free_ignores now i s v =
    let slot : get_or s.bg_ignore_until (magnitude i) 0 ≡ 0 =
      rw v.none_ignored (get_or-replicate (length s.bg_ignore_until) (magnitude i) 0) in
    ground arith

module _ (bond_heal : Bool) (now : ℕ) (r : Radio) (s : Guard) where
  switched-IsFree :
      is_neg s.last_active_profile ≡ false
      → int_eq s.last_active_profile r.active ≡ false
      → IsFree (profile_changed bond_heal now r s).0
  unfolding profile_changed forget thrash_clear bg_clear_ignores class_a_note_auth_event
  switched-IsFree h k = grind (arith, length-replicate)

  forget-IsRing : (u : Guard) → IsRing u → IsRing (forget bond_heal now r u).0
  unfolding forget thrash_clear bg_clear_ignores class_a_note_auth_event
  forget-IsRing u v = record {
    storage = ground (arith, v.storage);
    head_in = ground arith;
    count_in = ground arith;
  }

  switched-IsRing :
      is_neg s.last_active_profile ≡ false
      → int_eq s.last_active_profile r.active ≡ false
      → IsRing s
      → IsRing (profile_changed bond_heal now r s).0
  unfolding profile_changed
  switched-IsRing h k v =
      let seen = record s { last_active_profile = r.active } in
      let ring =
        forget-IsRing seen
          (record { storage = v.storage; head_in = v.head_in; count_in = v.count_in }) in
      rw (h, k) ring

-- The profiles of rivals, in the order of the links.
abbrev pub rivals : Radio → List Conn → List ℤ
rivals r [] = []
rivals r (c ∷ cs) = if rival r c then c.idx ∷ rivals r cs else rivals r cs

free-targets :
    (now : ℕ) (r : Radio) (s : Guard) (cs : List Conn) → IsFree s → targets now r s cs ≡ rivals r cs
free-targets now r s [] v = refl
free-targets now r s (c ∷ cs) v =
    rw (free_ignores now c.idx s v, free-targets now r s cs v) ground arith

free-win : (now : ℕ) (s : Guard) → IsFree s → thrash_win_count now s ≡ 0
unfolding thrash_win_count count_back
free-win now s v = rw v.none_counted refl

-- From a state with a sound ring, after the user selects another profile than the known one seen
-- before, the next scan, over links of
-- different profiles and whose disconnects succeed, disconnects the rivals of the profile selected
-- then, in the order of the links, the first as many of them as the cap allows in a window: no rest
-- period and no eviction counted before the switch protects any.
pub switched-drops :
    (evict_reason : ℕ) (bond_heal : Bool) (now later : ℕ) (r t : Radio) (cs : List Conn) (s : Guard)
    → IsRing s
    → is_neg s.last_active_profile ≡ false
    → int_eq s.last_active_profile r.active ≡ false
    → AreApart cs
    → All (λ c. is_nonzero c.disconnect_err ≡ false) cs
    → dropped
        (exclusive_host_evict_all evict_reason later t false cs
          (profile_changed bond_heal now r s).0).1
      ≡ take bg_evict_cap (rivals t cs)
switched-drops q bond_heal now later r t cs s v h k apart works =
    let free = switched-IsFree bond_heal now r s h k in
    let s' = (profile_changed bond_heal now r s).0 in
    evict-targets q later t cs s' (switched-IsRing bond_heal now r s h k v) apart works
    ∙ ap (λ n. take (bg_evict_cap - n) (targets later t s' cs)) (free-win later s' free)
    ∙ ap (take bg_evict_cap) (free-targets later t s' cs free)
