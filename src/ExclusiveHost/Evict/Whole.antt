-- ===== src/ExclusiveHost/Evict/Whole.antt =====
-- A whole scan, against a list: whom it disconnects, and in which order.
use totem_zmk_config.Prelude.{
  ℕ, ◌+◌, ◌-◌, ◌<◌, ◌≡◌, refl, ap, sym, ◌∙◌, arith, Bool, true, false, ◌&&◌, ◌||◌, not, inl, inr,
  List, [], ◌∷◌, length, get_or-set_ne, length-set, take, take-cons, take-nil, leb, if◌then◌else◌,
  ℤ, is_neg, is_nonzero, int_eq, magnitude, All, Bool-cases,
}
use totem_zmk_config.Config.{bg_evict_cap, bg_evict_ignore_ms}
use totem_zmk_config.Host.{Conn, Radio}
use totem_zmk_config.ExclusiveHost.{
  Guard, bg_should_ignore, bg_note_evict, thrash_win_count, thrash_push, thrash_note_bg_evict,
}
use totem_zmk_config.ExclusiveHost.Thrash.{IsRing, thrash_push-IsRing, thrash_win_count-push_exact}
use totem_zmk_config.ExclusiveHost.Evict.{
  drop_if_non_active_host, exclusive_host_evict_all, drop_known, evict, skip_evict, ignore_evict,
}
use totem_zmk_config.ExclusiveHost.Evict.Safety.{dropped, dropped-append}

-- The link of a computer with a known profile other than the selected one, which is itself linked
-- over Bluetooth, with no cable.
abbrev pub rival : Radio → Conn → Bool
rival r c =
    c.info_ok
    && c.peripheral
    && not (r.hid_is_usb || r.cable_up)
    && not (is_neg c.idx)
    && not (int_eq c.idx r.active)
    && not (r.is_open || not r.is_connected)

-- The profiles of rivals that are not in their rest period, in the order of the links.
abbrev pub targets : ℕ → Radio → Guard → List Conn → List ℤ
targets now r s [] = []
targets now r s (c ∷ cs) =
    if rival r c && not (bg_should_ignore now c.idx s)
    then c.idx ∷ targets now r s cs
    else targets now r s cs

-- No two links have one known profile.
abbrev pub same_profile : Conn → Conn → Bool
same_profile c d = int_eq d.idx c.idx && not (is_neg d.idx)

abbrev pub AreApart : List Conn → Type 0
AreApart [] = Unit {0}
AreApart (c ∷ cs) = All (λ d. same_profile c d ≡ false) cs × AreApart cs

-- What a scan reads and writes, but for times of log lines.
record Same (s t : Guard) : Type 0 where
  ring : t.thrash_ring ≡ s.thrash_ring
  head : t.thrash_ring_head ≡ s.thrash_ring_head
  count : t.thrash_ring_count ≡ s.thrash_ring_count
  resting : t.bg_ignore_until ≡ s.bg_ignore_until

Same-win : (now : ℕ) (s t : Guard) → Same s t → thrash_win_count now t ≡ thrash_win_count now s
unfolding thrash_win_count
Same-win now s t e = rw (e.ring, e.head, e.count) refl

Same-IsRing : (s t : Guard) → Same s t → IsRing s → IsRing t
Same-IsRing s t e v = record {
  storage = ap length e.ring ∙ v.storage;
  head_in = omega (arith, e.head, v.head_in);
  count_in = omega (arith, e.count, v.count_in);
}

Same-ignore :
    (now : ℕ) (idx : ℤ) (s t : Guard)
    → t.bg_ignore_until ≡ s.bg_ignore_until
    → bg_should_ignore now idx t ≡ bg_should_ignore now idx s
unfolding bg_should_ignore
Same-ignore now idx s t e = rw e refl

targets_same :
    (now : ℕ) (r : Radio) (s t : Guard) (cs : List Conn)
    → t.bg_ignore_until ≡ s.bg_ignore_until
    → targets now r t cs ≡ targets now r s cs
targets_same now r s t [] e = refl
targets_same now r s t (c ∷ cs) e =
    rw (Same-ignore now c.idx s t e, targets_same now r s t cs e) refl

module _ (evict_reason : ℕ) (now : ℕ) (r : Radio) where
  -- A link that is no target, or a window that is full.
  idle_drop :
      (c : Conn) (s : Guard)
      → rival r c && not (bg_should_ignore now c.idx s) ≡ false
      → let (t, acts) = drop_if_non_active_host evict_reason now r false c s in
        Same s t × (dropped acts ≡ [])
  unfolding drop_if_non_active_host drop_known skip_evict ignore_evict
  idle_drop c s h = ground arith

  capped_drop :
      (c : Conn) (s : Guard)
      → leb bg_evict_cap (thrash_win_count now s) ≡ true
      → let (t, acts) = drop_if_non_active_host evict_reason now r false c s in
        Same s t × (dropped acts ≡ [])
  unfolding drop_if_non_active_host drop_known skip_evict ignore_evict
  capped_drop c s h = ground arith

  abbrev noted : Conn → Guard → Guard
  noted c s = thrash_push now (bg_note_evict now c.idx s)

  -- A target, with room in the window.
  target_drop :
      (c : Conn) (s : Guard)
      → rival r c && not (bg_should_ignore now c.idx s) ≡ true
      → leb bg_evict_cap (thrash_win_count now s) ≡ false
      → is_nonzero c.disconnect_err ≡ false
      → let (t, acts) = drop_if_non_active_host evict_reason now r false c s in
        (t ≡ noted c s) × (dropped acts ≡ c.idx ∷ [])
  unfolding drop_if_non_active_host drop_known evict thrash_note_bg_evict
  target_drop c s h k e = ground arith

  note-Same :
      (idx : ℤ) (s : Guard)
      → let t = bg_note_evict now idx s in
        (t.thrash_ring ≡ s.thrash_ring)
        × (t.thrash_ring_head ≡ s.thrash_ring_head)
        × (t.thrash_ring_count ≡ s.thrash_ring_count)
  unfolding bg_note_evict
  note-Same idx s = ground arith

  note-IsRing : (idx : ℤ) (s : Guard) → IsRing s → IsRing (bg_note_evict now idx s)
  note-IsRing idx s v =
      let e = note-Same idx s in
      record {
        storage = ap length e.0 ∙ v.storage;
        head_in = omega (arith, e.1, v.head_in);
        count_in = omega (arith, e.2, v.count_in);
      }

  note-win :
      (idx : ℤ) (s : Guard)
      → thrash_win_count now (bg_note_evict now idx s) ≡ thrash_win_count now s
  unfolding thrash_win_count
  note-win idx s = let e = note-Same idx s in rw (e.0, e.1, e.2) refl

  noted-win :
      (c : Conn) (s : Guard)
      → IsRing s
      → thrash_win_count now s < bg_evict_cap
      → thrash_win_count now (noted c s) ≡ thrash_win_count now s + 1
  noted-win c s v h =
      thrash_win_count-push_exact now (bg_note_evict now c.idx s) (note-IsRing c.idx s v)
        (omega (arith, note-win c.idx s))
      ∙ ap (λ n. n + 1) (note-win c.idx s)

  -- An eviction starts the rest period of its own profile only.
  noted-ignore :
      (c d : Conn) (s : Guard)
      → is_neg c.idx ≡ false
      → same_profile c d ≡ false
      → bg_should_ignore now d.idx (noted c s) ≡ bg_should_ignore now d.idx s
  unfolding bg_should_ignore bg_note_evict thrash_push
  noted-ignore c d s k h = ground (
    arith,
    length-set s.bg_ignore_until (magnitude c.idx) (now + bg_evict_ignore_ms),
    get_or-set_ne s.bg_ignore_until (magnitude c.idx) (magnitude d.idx) (now + bg_evict_ignore_ms)
        0,
  )

  targets-noted :
      (c : Conn) (cs : List Conn) (s : Guard)
      → is_neg c.idx ≡ false
      → All (λ d. same_profile c d ≡ false) cs
      → targets now r (noted c s) cs ≡ targets now r s cs
  targets-noted c [] s k h = refl
  targets-noted c (d ∷ cs) s k h = rw (noted-ignore c d s k h.0, targets-noted c cs s k h.1) refl

  known_target : (c : Conn) (b : Bool) → rival r c && b ≡ true → is_neg c.idx ≡ false
  known_target c b h = ground arith

  room : Guard → ℕ
  room s = bg_evict_cap - thrash_win_count now s

  Same-take :
      (cs : List Conn) (s t : Guard)
      → Same s t
      → take (room t) (targets now r t cs) ≡ take (room s) (targets now r s cs)
  unfolding room
  Same-take cs s t e = rw (Same-win now s t e, targets_same now r s t cs e.resting) refl

  -- A scan whose disconnects succeed, over links of different profiles, disconnects exactly the
  -- rivals that are not in their rest period, in the order of the links, as many as the cap leaves
  -- room for in the window.
  pub evict-targets :
      (cs : List Conn) (s : Guard)
      → IsRing s
      → AreApart cs
      → All (λ c. is_nonzero c.disconnect_err ≡ false) cs
      → dropped (exclusive_host_evict_all evict_reason now r false cs s).1
        ≡ take (bg_evict_cap - thrash_win_count now s) (targets now r s cs)
  unfolding exclusive_host_evict_all room
  evict-targets [] s v a w = sym (take-nil (bg_evict_cap - thrash_win_count now s))
  evict-targets (c ∷ cs) s v a w =
      let (t, acts) = drop_if_non_active_host evict_reason now r false c s in
      let rest = (exclusive_host_evict_all evict_reason now r false cs t).1 in
      rw (dropped-append acts rest)
        (elim (Bool-cases (rival r c && not (bg_should_ignore now c.idx s))) [
          | inr idle ↦
              let d = idle_drop c s idle in
              rw (d.1, idle)
                (evict-targets cs t (Same-IsRing s t d.0 v) a.1 w.1 ∙ Same-take cs s t d.0)
          | inl target ↦ elim (Bool-cases (leb bg_evict_cap (thrash_win_count now s))) [
            | inl full ↦
                let d = capped_drop c s full in
                let none_left : bg_evict_cap - thrash_win_count now s ≡ 0 = ground arith in
                rw (d.1, none_left)
                  (evict-targets cs t (Same-IsRing s t d.0 v) a.1 w.1
                    ∙ Same-take cs s t d.0
                    ∙ ap (λ k. take k (targets now r s cs)) none_left)
            | inr some_left ↦
                let d = target_drop c s target some_left w.0 in
                let below : thrash_win_count now s < bg_evict_cap = ground arith in
                let known = known_target c (not (bg_should_ignore now c.idx s)) target in
                let ring =
                  thrash_push-IsRing now (bg_note_evict now c.idx s) (note-IsRing c.idx s v) in
                let left : bg_evict_cap - thrash_win_count now (noted c s)
                    ≡ bg_evict_cap - (thrash_win_count now s + 1) =
                  ap (λ n. bg_evict_cap - n) (noted-win c s v below) in
                rw (d.1, d.0, target)
                  (ap (λ xs. c.idx ∷ xs)
                      (evict-targets cs (noted c s) ring a.1 w.1
                        ∙ ap (λ k. take k (targets now r (noted c s) cs)) left
                        ∙ ap (take (bg_evict_cap - (thrash_win_count now s + 1)))
                            (targets-noted c cs s known a.0))
                    ∙ sym (
                        take-cons (bg_evict_cap - (thrash_win_count now s + 1))
                          (bg_evict_cap - thrash_win_count now s) c.idx (targets now r s cs)
                          (omega (arith, below))))
          ]
        ])
