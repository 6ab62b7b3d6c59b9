-- ===== src/Journal/Restore/Newest.antt =====
-- The newest row of a kind: what it is, and how a loop over the rows finds it.
use totem_zmk_config.Prelude.{
  ℕ, ◌<◌, ◌≤◌, ◌≡◌, refl, ap, sym, ◌∙◌, arith, Bool, true, ◌&&◌, ◌⊎◌, inl, inr, List, [], ◌∷◌, ltb,
  if◌then◌else◌, All,
}
use mathlib.Core.List.{Memᴰ}
use totem_zmk_config.Event.{Event}

-- A saved event behind its number.
abbrev pub Row : Type 0
Row = ℕ × Event

module _ {A : Type 0} (ok : Event → Bool) (view : Event → A) where
  -- `a` is the view of a row with the highest number, which is `seq` and over 0, among those that
  -- pass `ok`; it is `default`, and `seq` is 0, where none with a number over 0 does.
  pub record IsNewest (default : A) (rs : List Row) (seq : ℕ) (a : A) : Type 0 where
    pub highest : All (λ r. ok r.1 ≡ true → r.0 ≤ seq) rs
    pub found :
        ((seq ≡ 0) × (a ≡ default))
        ⊎ ((0 < seq) × (r : Row) × Memᴰ r rs × (ok r.1 ≡ true) × (r.0 ≡ seq) × (view r.1 ≡ a))

  unfoldable pub pick : Row → ℕ × A → ℕ × A
  pick (n, e) (m, a) = if ok e && ltb m n then (n, view e) else (m, a)

  unfoldable pub pick_all : List Row → ℕ × A → ℕ × A
  pick_all [] t = t
  pick_all (r ∷ rs) t = pick_all rs (pick r t)

  pick_grows : (r : Row) (t : ℕ × A) → t.0 ≤ (pick r t).0
  unfolding pick
  pick_grows (n, e) (m, a) = ground arith

  pick_covers : (r : Row) (t : ℕ × A) → ok r.1 ≡ true → r.0 ≤ (pick r t).0
  unfolding pick
  pick_covers (n, e) (m, a) h = ground arith

  pick_cases :
      (r : Row) (t : ℕ × A)
      → (pick r t ≡ t) ⊎ ((ok r.1 ≡ true) × (t.0 < r.0) × (pick r t ≡ (r.0, view r.1)))
  unfolding pick
  pick_cases (n, e) (m, a) = ground arith

  pick_all_grows : (rs : List Row) (t : ℕ × A) → t.0 ≤ (pick_all rs t).0
  unfolding pick_all
  pick_all_grows [] t = omega arith
  pick_all_grows (r ∷ rs) t = omega (arith, pick_grows r t, pick_all_grows rs (pick r t))

  pick_all_highest :
      (rs : List Row) (t : ℕ × A) → All (λ r. ok r.1 ≡ true → r.0 ≤ (pick_all rs t).0) rs
  unfolding pick_all
  pick_all_highest [] t = tt
  pick_all_highest (r ∷ rs) t = (
    λ h. omega (arith, pick_covers r t h, pick_all_grows rs (pick r t)),
    pick_all_highest rs (pick r t),
  )

  Found : List Row → ℕ × A → Type 0
  Found rs t = (0 < t.0) × (r : Row) × Memᴰ r rs × (ok r.1 ≡ true) × (r.0 ≡ t.0) × (view r.1 ≡ t.1)

  over_zero :
      (r : Row) (t : ℕ × A) (rs : List Row)
      → pick_all rs (pick r t) ≡ pick r t
      → t.0 < r.0
      → pick r t ≡ (r.0, view r.1)
      → 0 < (pick_all rs (pick r t)).0
  over_zero r t rs kept over e = omega (arith, over, ap (λ p. p.0) kept, ap (λ p. p.0) e)

  pick_all_cases : (rs : List Row) (t : ℕ × A) → (pick_all rs t ≡ t) ⊎ Found rs (pick_all rs t)
  unfolding pick_all Found
  pick_all_cases [] t = inl refl
  pick_all_cases (r ∷ rs) t = elim (pick_all_cases rs (pick r t)) [
    | inr (over, q, m, h, n, v) ↦ inr (over, q, Memᴰ.tail m, h, n, v)
    | inl kept ↦ elim (pick_cases r t) [
      | inl e ↦ inl (kept ∙ e)
      | inr (h, over, e) ↦ inr (
        over_zero r t rs kept over e,
        r,
        Memᴰ.head refl,
        h,
        sym (ap (λ p. p.0) (kept ∙ e)),
        sym (ap (λ p. p.1) (kept ∙ e)),
      )
    ]
  ]

  pub pick_all-IsNewest :
      (rs : List Row) (default : A)
      → let t = pick_all rs (0, default) in IsNewest default rs t.0 t.1
  unfolding Found
  pick_all-IsNewest rs default = record {
    highest = pick_all_highest rs (0, default);
    found = elim (pick_all_cases rs (0, default)) [
      | inl e ↦ inl (ap (λ p. p.0) e, ap (λ p. p.1) e)
      | inr f ↦ inr f
    ];
  }
