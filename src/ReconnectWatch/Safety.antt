-- ===== src/ReconnectWatch/Safety.antt =====
-- Whom the ladder disconnects, and when.
use totem_zmk_config.Prelude.{
  ℕ, ◌≡◌, refl, arith, Bool, true, false, List, [], ◌∷◌, ◌++◌, none, some, Bool-cases, inl, inr,
  Option-cases, ap, ◌⊎◌, ◌&&◌, ℤ, is_neg, int_eq, leb, All, All-append, All-map,
}
use mathlib.Core.List.{Memᴰ}
use totem_zmk_config.Host.{Conn, Radio, security_l2}
use totem_zmk_config.ReconnectWatch.{
  Step, step_none, step_readv, step_evict, step_zombie, Watch, Action, log, disconnect, boost_rearm,
  submit_active_down_arm, scan_all, scan_host_conns, empty_scan, keep_first, Scan, climb,
  reconnect_watch_work_handler, drop_non_active_host, drop_non_active_hosts,
}

abbrev pub dropped : List Action → List ℤ
dropped [] = []
dropped (disconnect idx reason ∷ acts) = idx ∷ dropped acts
dropped (_ ∷ acts) = dropped acts

-- A live link of a computer with the selected profile.
abbrev pub is_active_link : ℤ → Conn → Bool
is_active_link active c = c.info_ok && c.peripheral && c.connected && int_eq c.idx active

-- An encrypted link of a computer with a known profile that is not selected.
pub record IsStray (active : ℤ) (c : Conn) : Type 0 where
  pub readable : c.info_ok ≡ true
  pub computer : c.peripheral ≡ true
  pub known : is_neg c.idx ≡ false
  pub other : int_eq c.idx active ≡ false
  pub encrypted : leb security_l2 c.security ≡ true

-- A match that is found stays found.
scan_keeps :
    (active : ℤ) (cs : List Conn) (scan : Scan) (d : Conn)
    → scan.active_match ≡ some d
    → (scan_all active cs scan).active_match ≡ some d
unfolding scan_all scan_host_conns keep_first
scan_keeps active [] scan d h = h
scan_keeps active (c ∷ cs) scan d h =
    scan_keeps active cs (scan_host_conns active c scan) d (ground arith)

scan_finds :
    (active : ℤ) (c : Conn) (scan : Scan)
    → is_active_link active c ≡ true
    → (d : Conn) × ((scan_host_conns active c scan).active_match ≡ some d)
unfolding scan_host_conns keep_first
scan_finds active c scan h = elim (Option-cases scan.active_match) [
  | inl e ↦ (c, ground arith)
  | inr (d, e) ↦ (d, ground arith)
]

-- The scan finds nothing only if no link is a live link of the selected profile.
pub scan_none :
    (active : ℤ) (cs : List Conn) (scan : Scan)
    → (scan_all active cs scan).active_match ≡ none
    → All (λ c. is_active_link active c ≡ false) cs
unfolding scan_all
scan_none active [] scan h = tt
scan_none active (c ∷ cs) scan h = (
  elim (Bool-cases (is_active_link active c)) [
    | inl e ↦
        let found = scan_finds active c scan e in
        let kept = scan_keeps active cs (scan_host_conns active c scan) found.0 found.1 in
        absurd ground arith
    | inr e ↦ e
  ],
  scan_none active cs (scan_host_conns active c scan) h,
)

dropped-append : (acts bs : List Action) → dropped (acts ++ bs) ≡ dropped acts ++ dropped bs
dropped-append [] bs = refl
dropped-append (disconnect idx reason ∷ acts) bs = ap (λ l. idx ∷ l) (dropped-append acts bs)
dropped-append (log e ∷ acts) bs = dropped-append acts bs
dropped-append (boost_rearm ∷ acts) bs = dropped-append acts bs
dropped-append (submit_active_down_arm ∷ acts) bs = dropped-append acts bs

-- A list of links has a stray one with the profile `i`.
abbrev pub StrayOf : ℤ → List Conn → ℤ → Type 0
StrayOf active cs i = (c : Conn) × Memᴰ c cs × (c.idx ≡ i) × IsStray active c

drop-cases :
    (active : ℤ) (c : Conn)
    → (dropped (drop_non_active_host active c) ≡ [])
      ⊎ (IsStray active c × (dropped (drop_non_active_host active c) ≡ c.idx ∷ []))
unfolding drop_non_active_host
drop-cases active c = ground arith

hosts-StrayOf :
    (active : ℤ) (cs : List Conn)
    → All (StrayOf active cs) (dropped (drop_non_active_hosts active cs))
unfolding drop_non_active_hosts
hosts-StrayOf active [] = tt
hosts-StrayOf active (c ∷ cs) =
    let one = drop_non_active_host active c in
    let rest = drop_non_active_hosts active cs in
    rw (dropped-append one rest) (
      All-append (StrayOf active (c ∷ cs)) (dropped one) (dropped rest)
        (elim (drop-cases active c) [
          | inl e ↦ rw e tt
          | inr (v, e) ↦ rw e ((c, Memᴰ.head refl, refl, v), tt)
        ])
        (All-map (StrayOf active cs) (StrayOf active (c ∷ cs)) (dropped rest)
          (λ i h. (h.0, Memᴰ.tail h.1, h.2, h.3)) (hosts-StrayOf active cs)))

-- The ladder stands at its second step, and the selected computer is really down.
pub record IsDown (r : Radio) (cs : List Conn) (s : Watch) : Type 0 where
  pub second : s.next_step ≡ step_evict
  pub not_usb : r.hid_is_usb ≡ false
  pub no_cable : r.cable_up ≡ false
  pub not_suppressed : r.adv_suppressed ≡ false
  pub bonded : r.is_open ≡ false
  pub unlinked : r.is_connected ≡ false
  pub no_match : (scan_all r.active cs empty_scan).active_match ≡ none

climb_cases :
    (now hosts : ℕ) (r : Radio) (cs : List Conn) (step : Step) (s : Watch)
    → (dropped (climb now r hosts cs step s).1 ≡ [])
      ⊎ ((step ≡ step_evict)
          × (dropped (climb now r hosts cs step s).1 ≡ dropped (drop_non_active_hosts r.active cs)))
unfolding climb
climb_cases now hosts r cs step_none s = inl refl
climb_cases now hosts r cs step_readv s = inl refl
climb_cases now hosts r cs step_evict s = inr (refl, refl)
climb_cases now hosts r cs step_zombie s = inl refl

work_cases :
    (now : ℕ) (r : Radio) (cs : List Conn) (s : Watch)
    → let acts = (reconnect_watch_work_handler now r cs s).1 in
      (dropped acts ≡ [])
      ⊎ (IsDown r cs s × (dropped acts ≡ dropped (drop_non_active_hosts r.active cs)))
unfolding reconnect_watch_work_handler
work_cases now r cs s =
    ground (arith, climb_cases now (scan_all r.active cs empty_scan).host_count r cs s.next_step s)

-- The recovery work disconnects only encrypted links of computers with a known profile that is not
-- the selected one, and only at its second step, with no cable, with the selected profile bonded
-- and not linked, and with no live link of it among the connections.
pub work-StrayOf :
    (now : ℕ) (r : Radio) (cs : List Conn) (s : Watch)
    → All
        (λ i.
          StrayOf r.active cs i × IsDown r cs s × All (λ c. is_active_link r.active c ≡ false) cs)
        (dropped (reconnect_watch_work_handler now r cs s).1)
work-StrayOf now r cs s = elim (work_cases now r cs s) [
  | inl e ↦ rw e tt
  | inr (v, e) ↦ rw e (
      All-map (StrayOf r.active cs)
        (λ i.
          StrayOf r.active cs i × IsDown r cs s × All (λ c. is_active_link r.active c ≡ false) cs)
        (dropped (drop_non_active_hosts r.active cs))
        (λ i h. (h, v, scan_none r.active cs empty_scan v.no_match)) (hosts-StrayOf r.active cs))
]
