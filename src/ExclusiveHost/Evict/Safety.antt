-- ===== src/ExclusiveHost/Evict/Safety.antt =====
-- Whom a scan may disconnect, and whom it must.
use totem_zmk_config.Prelude.{
  ℕ, ◌≡◌, ◌≢◌, refl, ap, arith, true, false, ◌⊎◌, inl, inr, List, [], ◌∷◌, ◌++◌, leb, ℤ, is_neg,
  int_eq, All, All-append, All-map, ◌↔◌,
}
use mathlib.Core.List.{Memᴰ}
use totem_zmk_config.Config.{bg_evict_cap}
use totem_zmk_config.Host.{Conn, Radio}
use totem_zmk_config.ExclusiveHost.{
  Guard, Action, log, disconnect, submit_evict, schedule_retry, reschedule_fallback,
  submit_bond_clear, clear_bonds, thrash_win_count, thrash_note_bg_evict, bg_should_ignore,
}
use totem_zmk_config.ExclusiveHost.Evict.{
  drop_if_non_active_host, exclusive_host_evict_all, drop_known, evict, skip_evict, ignore_evict,
}

-- The profiles that a list of actions tries to disconnect.
abbrev pub dropped : List Action → List ℤ
dropped [] = []
dropped (disconnect idx err ∷ acts) = idx ∷ dropped acts
dropped (_ ∷ acts) = dropped acts

pub dropped-append : (acts bs : List Action) → dropped (acts ++ bs) ≡ dropped acts ++ dropped bs
dropped-append [] bs = refl
dropped-append (disconnect idx err ∷ acts) bs = ap (λ l. idx ∷ l) (dropped-append acts bs)
dropped-append (log e ∷ acts) bs = dropped-append acts bs
dropped-append (submit_evict ∷ acts) bs = dropped-append acts bs
dropped-append (schedule_retry ∷ acts) bs = dropped-append acts bs
dropped-append (reschedule_fallback ∷ acts) bs = dropped-append acts bs
dropped-append (submit_bond_clear ∷ acts) bs = dropped-append acts bs
dropped-append (clear_bonds ∷ acts) bs = dropped-append acts bs

-- A link of a computer with a known profile other than the selected one, which is itself linked
-- over Bluetooth, with no cable.
pub record IsRival (r : Radio) (c : Conn) : Type 0 where
  pub readable : c.info_ok ≡ true
  pub computer : c.peripheral ≡ true
  pub known : is_neg c.idx ≡ false
  pub other : int_eq c.idx r.active ≡ false
  pub not_usb : r.hid_is_usb ≡ false
  pub no_cable : r.cable_up ≡ false
  pub bonded : r.is_open ≡ false
  pub linked : r.is_connected ≡ true

module _ (evict_reason : ℕ) (now : ℕ) (r : Radio) where
  abbrev pub drops : Conn → Guard → List ℤ
  drops c s = dropped (drop_if_non_active_host evict_reason now r false c s).1

  pub drops-IsRival :
      (c : Conn) (s : Guard)
      → drops c s ≢ []
      → IsRival r c
        × (bg_should_ignore now c.idx s ≡ false)
        × (leb bg_evict_cap (thrash_win_count now s) ≡ false)
  unfolding drop_if_non_active_host drop_known evict skip_evict ignore_evict thrash_note_bg_evict
  drops-IsRival c s h = ground arith

  pub rival_drops :
      (c : Conn) (s : Guard)
      → IsRival r c
      → bg_should_ignore now c.idx s ≡ false
      → leb bg_evict_cap (thrash_win_count now s) ≡ false
      → drops c s ≡ c.idx ∷ []
  unfolding drop_if_non_active_host drop_known evict skip_evict ignore_evict thrash_note_bg_evict
  rival_drops c s v i k = ground arith

  pub drops_cases :
      (c : Conn) (s : Guard) → (drops c s ≡ []) ⊎ (IsRival r c × (drops c s ≡ c.idx ∷ []))
  unfolding drop_if_non_active_host drop_known evict skip_evict ignore_evict thrash_note_bg_evict
  drops_cases c s = ground arith

  -- The links of a list that have one profile, as a proof that it holds such a link.
  abbrev pub RivalOf : List Conn → ℤ → Type 0
  RivalOf cs i = (c : Conn) × Memᴰ c cs × (c.idx ≡ i) × IsRival r c

  drops-RivalOf : (c : Conn) (cs : List Conn) (s : Guard) → All (RivalOf (c ∷ cs)) (drops c s)
  drops-RivalOf c cs s = elim (drops_cases c s) [
    | inl e ↦ rw e tt
    | inr (v, e) ↦ rw e ((c, Memᴰ.head refl, refl, v), tt)
  ]

  -- A scan tries to disconnect only computers with a known profile that is not the selected one,
  -- and none at all on a cable or while the selected profile is open or not linked.
  pub evict-All-RivalOf :
      (cs : List Conn) (s : Guard)
      → All (RivalOf cs) (dropped (exclusive_host_evict_all evict_reason now r false cs s).1)
  unfolding exclusive_host_evict_all
  evict-All-RivalOf [] s = tt
  evict-All-RivalOf (c ∷ cs) s =
      let (s', acts) = drop_if_non_active_host evict_reason now r false c s in
      let rest = (exclusive_host_evict_all evict_reason now r false cs s').1 in
      rw (dropped-append acts rest) (
        All-append (RivalOf (c ∷ cs)) (drops c s) (dropped rest) (drops-RivalOf c cs s) (
          All-map (RivalOf cs) (RivalOf (c ∷ cs)) (dropped rest)
            (λ i h. (h.0, Memᴰ.tail h.1, h.2, h.3)) (evict-All-RivalOf cs s')))

  -- One link is disconnected exactly when it is a rival, its profile is not in its rest period,
  -- and the window holds fewer evictions than the cap.
  drops_iff :
      (c : Conn) (s : Guard)
      → (drops c s ≡ c.idx ∷ []) ↔ (
          IsRival r c
          × (bg_should_ignore now c.idx s ≡ false)
          × (leb bg_evict_cap (thrash_win_count now s) ≡ false))
  drops_iff c s = (λ h. drops-IsRival c s (λ e. cc), λ h. rival_drops c s h.0 h.1 h.2)
