-- ===== src/ExclusiveHost/Evict/Cap.antt =====
-- The cap on evictions in the window, over any history of scans.
use totem_zmk_config.Prelude.{
  ℕ, ◌+◌, ◌≤◌, ◌≡◌, ap, arith, List, [], ◌∷◌, leb, true, false, Bool-cases, inl, inr, ◌∙◌, set,
  magnitude, is_nonzero, ℤ,
}
use totem_zmk_config.Config.{bg_evict_cap, bg_evict_ignore_ms}
use totem_zmk_config.Host.{Conn, Radio}
use totem_zmk_config.ExclusiveHost.{
  Guard, thrash_win_count, thrash_push, bg_note_evict, thrash_note_bg_evict,
}
use totem_zmk_config.ExclusiveHost.Thrash.{
  IsRing, thrash_push-IsRing, thrash_win_count-push, thrash_win_count_later,
}
use totem_zmk_config.ExclusiveHost.Evict.{
  drop_if_non_active_host, exclusive_host_evict_all, drop_known, evict, skip_evict, ignore_evict,
}

-- The window holds no more evictions than the cap, at `now` and so at any later time.
pub record IsCapped (now : ℕ) (s : Guard) : Type 0 where
  pub ring : IsRing s
  pub capped : thrash_win_count now s ≤ bg_evict_cap

pub IsCapped-later : (now later : ℕ) (s : Guard) → now ≤ later → IsCapped now s → IsCapped later s
IsCapped-later now later s h v = record {
  ring = v.ring;
  capped = omega (arith, thrash_win_count_later now later s h, v.capped);
}

module _ (evict_reason : ℕ) (now : ℕ) (r : Radio) where
  -- The states in which `drop_if_non_active_host` can leave the ring.
  push-IsCapped :
      (s : Guard)
      → IsCapped now s
      → leb bg_evict_cap (thrash_win_count now s) ≡ false
      → IsCapped now (thrash_push now s)
  push-IsCapped s v h = record {
    ring = thrash_push-IsRing now s v.ring;
    capped = ground (arith, thrash_win_count-push now s v.ring);
  }

  pub same_ring :
      (s t : Guard)
      → t.thrash_ring ≡ s.thrash_ring
      → t.thrash_ring_head ≡ s.thrash_ring_head
      → t.thrash_ring_count ≡ s.thrash_ring_count
      → IsCapped now s
      → IsCapped now t
  unfolding thrash_win_count
  same_ring s t a b c v = ground (arith, v.ring)

  skip-IsCapped :
      (c : Conn) (s : Guard) → IsCapped now s → IsCapped now (skip_evict evict_reason now r c s).0
  unfolding skip_evict
  skip-IsCapped c s v = ground (arith, same_ring s (record s { last_skip_log_ms = now }))

  ignore-IsCapped : (s : Guard) → IsCapped now s → IsCapped now (ignore_evict evict_reason now s).0
  unfolding ignore_evict
  ignore-IsCapped s v = ground (arith, same_ring s (record s { last_ignore_log_ms = now }))

  note-IsCapped : (idx : ℤ) (s : Guard) → IsCapped now s → IsCapped now (bg_note_evict now idx s)
  unfolding bg_note_evict
  note-IsCapped idx s v = ground (
    arith,
    same_ring s (record s {
      bg_ignore_until = set s.bg_ignore_until (magnitude idx) (now + bg_evict_ignore_ms);
    }),
  )

  note-win :
      (idx : ℤ) (s : Guard)
      → thrash_win_count now (bg_note_evict now idx s) ≡ thrash_win_count now s
  unfolding bg_note_evict thrash_win_count
  note-win idx s = ground arith

  evict-IsCapped :
      (c : Conn) (s : Guard)
      → IsCapped now s
      → leb bg_evict_cap (thrash_win_count now s) ≡ false
      → IsCapped now (evict evict_reason now r c s).0
  unfolding evict thrash_note_bg_evict
  evict-IsCapped c s v h =
      let noted =
        push-IsCapped (bg_note_evict now c.idx s) (note-IsCapped c.idx s v)
          (ap (leb bg_evict_cap) (note-win c.idx s) ∙ h) in
      elim (Bool-cases (is_nonzero c.disconnect_err)) [ inl e ↦ rw e v | inr e ↦ rw e noted ]

  known-IsCapped :
      (c : Conn) (s : Guard)
      → IsCapped now s
      → IsCapped now (drop_known evict_reason now r false c s).0
  unfolding drop_known
  known-IsCapped c s v = ground (
    arith,
    ignore-IsCapped s,
    evict-IsCapped c s,
    same_ring s (record s { thrash_cap_logged = true }),
  )

  drop-IsCapped :
      (c : Conn) (s : Guard)
      → IsCapped now s
      → IsCapped now (drop_if_non_active_host evict_reason now r false c s).0
  unfolding drop_if_non_active_host
  drop-IsCapped c s v = ground (arith, known-IsCapped c s, skip-IsCapped c s)

  pub scan-IsCapped :
      (cs : List Conn) (s : Guard)
      → IsCapped now s
      → IsCapped now (exclusive_host_evict_all evict_reason now r false cs s).0
  unfolding exclusive_host_evict_all
  scan-IsCapped [] s v = v
  scan-IsCapped (c ∷ cs) s v =
      scan-IsCapped cs (drop_if_non_active_host evict_reason now r false c s).0
        (drop-IsCapped c s v)
