-- ===== src/ReconnectWatch/References.antt =====
-- src/reconnect_watch.c: the references that the scan of the recovery work takes, `bt_conn_ref`, and
-- gives back, `bt_conn_unref`.
use totem_zmk_config.Prelude.{
  ℕ, ◌+◌, ◌≡◌, refl, arith, ◌||◌, not, List, [], ◌∷◌, ◌++◌, Option, none, some, if◌then◌else◌, ℤ,
  int_eq, Option-cases, inl, inr,
}
use totem_zmk_config.Host.{Conn, Radio}
use totem_zmk_config.ReconnectWatch.{Scan, scan_host_conns, scan_all, empty_scan, keep_first}

pub data Ref : Type 0 where
  ref unref : Conn → Ref

abbrev pub ref_first : Option Conn → Conn → List Ref
ref_first none c = ref c ∷ []
ref_first (some d) c = []

-- The references that `scan_host_conns` takes of one connection.
unfoldable pub scan_refs : ℤ → Conn → Scan → List Ref
scan_refs active c scan =
    if not c.info_ok || not c.peripheral
    then []
    else if not c.connected
    then []
    else ref_first scan.any_host c
      ++ (if int_eq c.idx active then ref_first scan.active_match c else [])

unfoldable pub scan_all_refs : ℤ → List Conn → Scan → List Ref
scan_all_refs active [] scan = []
scan_all_refs active (c ∷ cs) scan =
    scan_refs active c scan ++ scan_all_refs active cs (scan_host_conns active c scan)

abbrev pub unref_some : Option Conn → List Ref
unref_some none = []
unref_some (some c) = unref c ∷ []

-- With what it leaves of the scan.
unfoldable pub host_conn_scan_release : Scan → Scan × List Ref
host_conn_scan_release scan = (
  record scan { active_match = none; any_host = none },
  unref_some scan.active_match ++ unref_some scan.any_host,
)

-- All of them, in a call of `reconnect_watch_work_handler`: the scan is released where the selected
-- computer is found, and at the end.
unfoldable pub work_refs : Radio → List Conn → List Ref
work_refs r cs =
    let scan = scan_all r.active cs empty_scan in
    let all = scan_all_refs r.active cs empty_scan ++ (host_conn_scan_release scan).1 in
    if r.hid_is_usb || r.cable_up || r.adv_suppressed
    then []
    else if r.is_open
    then []
    else if r.is_connected
    then []
    else all

-- A connection is weighed by `w`; with a weight of 1 for one connection and 0 for the others, these
-- are how often it is referenced and released.
module _ (w : Conn → ℕ) where
  abbrev pub taken : List Ref → ℕ
  taken [] = 0
  taken (ref c ∷ rs) = w c + taken rs
  taken (unref c ∷ rs) = taken rs

  abbrev pub given : List Ref → ℕ
  given [] = 0
  given (ref c ∷ rs) = given rs
  given (unref c ∷ rs) = w c + given rs

  abbrev weight : Option Conn → ℕ
  weight none = 0
  weight (some c) = w c

  abbrev held : Scan → ℕ
  held scan = weight scan.active_match + weight scan.any_host

  taken-append : (xs ys : List Ref) → taken (xs ++ ys) ≡ taken xs + taken ys
  taken-append [] ys = omega arith
  taken-append (ref c ∷ xs) ys = omega (arith, taken-append xs ys)
  taken-append (unref c ∷ xs) ys = taken-append xs ys

  given-append : (xs ys : List Ref) → given (xs ++ ys) ≡ given xs + given ys
  given-append [] ys = omega arith
  given-append (ref c ∷ xs) ys = given-append xs ys
  given-append (unref c ∷ xs) ys = omega (arith, given-append xs ys)

  ref_first_lem :
      (o : Option Conn) (c : Conn)
      → (taken (ref_first o c) + weight o ≡ weight (keep_first o c)) × (given (ref_first o c) ≡ 0)
  unfolding keep_first
  ref_first_lem none c = (omega arith, refl)
  ref_first_lem (some d) c = (omega arith, refl)

  one-held :
      (active : ℤ) (c : Conn) (scan : Scan)
      → let refs = scan_refs active c scan in
        (taken refs + held scan ≡ held (scan_host_conns active c scan)) × (given refs ≡ 0)
  unfolding scan_refs scan_host_conns
  one-held active c scan =
      let any = ref_first scan.any_host c in
      let match = ref_first scan.active_match c in
      ground (
        arith,
        ref_first_lem scan.any_host c,
        ref_first_lem scan.active_match c,
        taken-append any match,
        taken-append any [],
        given-append any match,
        given-append any [],
      )

  all-held :
      (active : ℤ) (cs : List Conn) (scan : Scan)
      → let refs = scan_all_refs active cs scan in
        (taken refs + held scan ≡ held (scan_all active cs scan)) × (given refs ≡ 0)
  unfolding scan_all_refs scan_all
  all-held active [] scan = (omega arith, refl)
  all-held active (c ∷ cs) scan =
      let one = scan_refs active c scan in
      let rest = scan_all_refs active cs (scan_host_conns active c scan) in
      let h = one-held active c scan in
      let k = all-held active cs (scan_host_conns active c scan) in
      (
        omega (arith, h.0, k.0, taken-append one rest),
        omega (arith, h.1, k.1, given-append one rest),
      )

  release_lem :
      (scan : Scan)
      → let refs = (host_conn_scan_release scan).1 in (given refs ≡ held scan) × (taken refs ≡ 0)
  unfolding host_conn_scan_release
  release_lem scan = elim (Option-cases scan.active_match) [
    | inl e ↦ elim (Option-cases scan.any_host) [ inl f ↦ ground arith | inr (d, f) ↦ ground arith ]
    | inr (c, e) ↦ elim (Option-cases scan.any_host) [
      | inl f ↦ ground arith
      | inr (d, f) ↦ ground arith
    ]
  ]

  -- The recovery work gives back exactly the references that it takes, each connection as often as it
  -- took it, on every path through it: no connection is kept alive by the scan, and none is released
  -- once too often.
  pub taken-work_refs :
      (r : Radio) (cs : List Conn) → taken (work_refs r cs) ≡ given (work_refs r cs)
  unfolding work_refs
  taken-work_refs r cs =
      let scan = scan_all r.active cs empty_scan in
      let refs = scan_all_refs r.active cs empty_scan in
      let release = (host_conn_scan_release scan).1 in
      let h = all-held r.active cs empty_scan in
      let k = release_lem scan in
      ground (arith, h, k, taken-append refs release, given-append refs release)
