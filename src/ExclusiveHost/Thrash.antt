-- ===== src/ExclusiveHost/Thrash.antt =====
-- The ring of eviction times, and how many of them lie in the window.
use totem_zmk_config.Prelude.{
  ℕ, zero, suc, ◌+◌, ◌-◌, ◌%◌, ◌≤◌, ◌<◌, ◌≡◌, refl, arith, List, set, length, get_or-set_ne,
  get_or-set_self, ap, ◌∙◌, length-set, ltb, Bool-cases, inl, inr,
}
use totem_zmk_config.ExclusiveHost.{
  Guard, count_back, thrash_win_count, thrash_push, thrash_ring_size,
}

pub record IsRing (s : Guard) : Type 0 where
  pub storage : length s.thrash_ring ≡ thrash_ring_size
  pub head_in : s.thrash_ring_head < thrash_ring_size
  pub count_in : s.thrash_ring_count ≤ thrash_ring_size

pub thrash_push-IsRing : (now : ℕ) (s : Guard) → IsRing s → IsRing (thrash_push now s)
unfolding thrash_push
thrash_push-IsRing now s v = ground (arith, length-set s.thrash_ring s.thrash_ring_head now)

-- Looking further back finds no fewer.
count_back_mono :
    (ring : List ℕ) (head now i k m : ℕ)
    → k ≤ m
    → count_back ring head now i k ≤ count_back ring head now i m
unfolding count_back
count_back_mono ring head now i zero m h = omega arith
count_back_mono ring head now i (suc k) zero h = elim h [ ]
count_back_mono ring head now i (suc k) (suc m) h =
    ground (arith, count_back_mono ring head now (i + 1) k m)

-- Time only takes entries out of the window.
count_back_later :
    (ring : List ℕ) (head now later i k : ℕ)
    → now ≤ later
    → count_back ring head later i k ≤ count_back ring head now i k
unfolding count_back
count_back_later ring head now later i zero h = omega arith
count_back_later ring head now later i (suc k) h =
    ground (arith, count_back_later ring head now later (i + 1) k)

-- The entries behind the newest one are those that stood there before.
count_back_push :
    (ring : List ℕ) (head time now i k : ℕ)
    → head < thrash_ring_size
    → i + k < thrash_ring_size
    → count_back (set ring head time) ((head + 1) % thrash_ring_size) now (i + 1) k
      ≡ count_back ring head now i k
unfolding count_back
count_back_push ring head time now i zero hh hk = refl
count_back_push ring head time now i (suc k) hh hk = ground (
  arith,
  get_or-set_ne ring head ((head + thrash_ring_size - 1 - i) % thrash_ring_size) time 0,
  count_back_push ring head time now (i + 1) k,
)

pub thrash_win_count_later :
    (now later : ℕ) (s : Guard) → now ≤ later → thrash_win_count later s ≤ thrash_win_count now s
unfolding thrash_win_count
thrash_win_count_later now later s h =
    count_back_later s.thrash_ring s.thrash_ring_head now later 0 s.thrash_ring_count h

count_back_new :
    (ring : List ℕ) (head now k n : ℕ)
    → head < thrash_ring_size
    → k < thrash_ring_size
    → k ≤ n
    → count_back (set ring head now) ((head + 1) % thrash_ring_size) now 0 (suc k)
      ≤ count_back ring head now 0 n + 1
unfolding count_back
count_back_new ring head now k n hh hk hn =
    ground (arith, count_back_push ring head now now 0 k, count_back_mono ring head now 0 k n)

-- Noting an eviction adds one to the window, at most.
pub thrash_win_count-push :
    (now : ℕ) (s : Guard)
    → IsRing s
    → thrash_win_count now (thrash_push now s) ≤ thrash_win_count now s + 1
unfolding thrash_win_count thrash_push
thrash_win_count-push now s v = elim (Bool-cases (ltb s.thrash_ring_count thrash_ring_size)) [
  | inl room ↦ ground (
    arith,
    count_back_new s.thrash_ring s.thrash_ring_head now s.thrash_ring_count s.thrash_ring_count,
  )
  | inr full ↦ ground (arith, count_back_new s.thrash_ring s.thrash_ring_head now 15 16)
]

-- Where fewer than `k` of `k` entries are in the window, one more place to look at adds none.
count_back_cut :
    (ring : List ℕ) (head now i k : ℕ)
    → count_back ring head now i (suc k) ≤ k
    → count_back ring head now i k ≡ count_back ring head now i (suc k)
unfolding count_back
count_back_cut ring head now i zero h = ground arith
count_back_cut ring head now i (suc k) h = ground (arith, count_back_cut ring head now (i + 1) k)

count_back_exact :
    (ring : List ℕ) (head now k : ℕ)
    → head < thrash_ring_size
    → k < thrash_ring_size
    → length ring ≡ thrash_ring_size
    → count_back (set ring head now) ((head + 1) % thrash_ring_size) now 0 (suc k)
      ≡ count_back ring head now 0 k + 1
unfolding count_back
count_back_exact ring head now k hh hk len =
    ground
      (arith, get_or-set_self ring head now 0 (omega arith), count_back_push ring head now now 0 k)

-- While the window does not fill the ring, noting an eviction adds exactly one to it.
pub thrash_win_count-push_exact :
    (now : ℕ) (s : Guard)
    → IsRing s
    → thrash_win_count now s < thrash_ring_size
    → thrash_win_count now (thrash_push now s) ≡ thrash_win_count now s + 1
unfolding thrash_win_count thrash_push
thrash_win_count-push_exact now s v h =
    elim (Bool-cases (ltb s.thrash_ring_count thrash_ring_size)) [
      | inl room ↦ ground (
        arith,
        count_back_exact s.thrash_ring s.thrash_ring_head now s.thrash_ring_count v.head_in,
        v.storage,
      )
      | inr full ↦
          let filled : s.thrash_ring_count ≡ 16 = ground (arith, v.count_in) in
          rw (full, filled)
            (count_back_exact s.thrash_ring s.thrash_ring_head now 15 v.head_in (omega arith)
                v.storage
              ∙ ap (λ n. n + 1)
                  (count_back_cut s.thrash_ring s.thrash_ring_head now 0 15
                    (omega (arith, rw filled at h))))
    ]
