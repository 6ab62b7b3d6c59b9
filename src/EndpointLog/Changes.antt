-- ===== src/EndpointLog/Changes.antt =====
-- The lines are the changes.
use totem_zmk_config.Prelude.{
  ◌≡◌, refl, ap, subst, ◌∙◌, arith, Bool, true, not, List, [], ◌∷◌, ◌++◌, ◌&&◌, Option, none, some,
  Bool-cases, inl, inr, ◌⊎◌,
}
use totem_zmk_config.EndpointLog.{changed, Last, Line, same_pair, totem_print_endpoints}

and_split : (a b : Bool) → a && b ≡ true → (a ≡ true) × (b ≡ true)
and_split a b h = ground arith

module _ {Endpoint : Type 0} (eq : Endpoint → Endpoint → Bool) where
  -- A report: forced at boot, or a poll or an event, which are not, and what ZMK answers.
  pub record Report : Type 0 where
    pub forced : Bool
    pub now : Endpoint × Endpoint

  -- The pairs that are printed.
  abbrev pub shown : Option (Line eq) → List (Endpoint × Endpoint)
  shown none = []
  shown (some l) = (l.selected, l.preferred) ∷ []

  unfoldable pub printed : List Report → Last eq → List (Endpoint × Endpoint)
  printed [] last = []
  printed (r ∷ rs) last =
      let (last', line) = totem_print_endpoints eq changed r.forced r.now last in
      shown line ++ printed rs last'

  -- The pair in force at the end of the reports.
  abbrev pub latest : List Report → Last eq → Last eq
  latest [] last = last
  latest (r ∷ rs) last = latest rs (some r.now)

  -- The last pair on the console.
  abbrev pub last_of : List (Endpoint × Endpoint) → Last eq → Last eq
  last_of [] last = last
  last_of (p ∷ ps) last = last_of ps (some p)

  module _ (eq_sound : (a b : Endpoint) → eq a b ≡ true → a ≡ b) where
    same-some :
        (now : Endpoint × Endpoint) (last : Last eq)
        → same_pair eq now last ≡ true
        → last ≡ some now
    unfolding same_pair
    same-some (selected, preferred) none h = absurd cc
    same-some (selected, preferred) (some (a, b)) h =
        let both = and_split (eq selected a) (eq preferred b) h in
        cc (eq_sound selected a both.0, eq_sound preferred b both.1)

    -- A report prints the pair that ZMK answers, or that pair was printed last.
    print_cases :
        (forced : Bool) (now : Endpoint × Endpoint) (last : Last eq)
        → let (last', line) = totem_print_endpoints eq changed forced now last in
          (last' ≡ some now) × ((shown line ≡ now ∷ []) ⊎ ((shown line ≡ []) × (last ≡ some now)))
    unfolding totem_print_endpoints
    print_cases forced now last = elim (Bool-cases (not forced && same_pair eq now last)) [
      | inl same ↦
          let e = same-some now last (and_split (not forced) (same_pair eq now last) same).1 in
          rw same (e, inr (refl, e))
      | inr differs ↦ rw differs (refl, inl refl)
    ]

    -- After any reports, the last pair on the console is the one in force when ZMK was asked last, be
    -- it that of a forced report, a poll or an event: no change is left unsaid, where ZMK's
    -- comparison of endpoints is right.
    pub last_of-printed :
        (rs : List Report) (last : Last eq) → last_of (printed rs last) last ≡ latest rs last
    unfolding printed
    last_of-printed [] last = refl
    last_of-printed (r ∷ rs) last =
        let last' = (totem_print_endpoints eq changed r.forced r.now last).0 in
        let cases = print_cases r.forced r.now last in
        let rest : last_of (printed rs last') (some r.now) ≡ latest rs (some r.now) =
          subst (λ l. last_of (printed rs last') l ≡ latest rs l) cases.0
            (last_of-printed rs last') in
        elim cases.1 [
          | inl new ↦ rw new rest
          | inr (none_new, e) ↦ rw none_new (ap (last_of (printed rs last')) e ∙ rest)
        ]
