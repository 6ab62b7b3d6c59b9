-- ===== src/Battery/Spaced.antt =====
-- The rate limit of the printed events.
use totem_zmk_config.Prelude.{
  ℕ, ◌+◌, ◌<◌, ◌≤◌, ◌≡◌, ◌≢◌, refl, ap, sym, ◌∙◌, subst, map, ◌++◌, arith, true, false, List, [],
  ◌∷◌, inl, inr, ◌⊎◌, All, same_text, same_text_refl,
}
use totem_zmk_config.Battery.{
  Battery, Line, Change, batt_event_min_interval_ms, batt_event_should_print, totem_batt_print,
  note_soc, totem_batt_listener,
}

-- An event: its uptime, the battery's millivolts, the levels, and what changed.
pub record Input : Type 0 where
  pub now : ℕ
  pub mv : ℕ
  pub levels : List ℕ
  pub change : Change

-- The lines of a sequence of events, each with the uptime of its event.
unfoldable pub printed : List Input → Battery → List (ℕ × Line)
printed [] s = []
printed (e ∷ es) s =
    let (s', lines) = totem_batt_listener e.now e.mv e.levels e.change s in
    map (λ l. (e.now, l)) lines ++ printed es s'

-- A line may follow another: a second later, and with other levels.
pub record Follows (last : ℕ) (text : List ℕ) (line : ℕ × Line) : Type 0 where
  pub later : last + batt_event_min_interval_ms ≤ line.0
  pub changed : line.1.levels ≢ text

-- Each line follows the one before.
abbrev pub Spaced : ℕ → List ℕ → List (ℕ × Line) → Type 0
Spaced last text [] = Unit
Spaced last text (l ∷ ls) = Follows last text l × Spaced l.0 l.1.levels ls

abbrev pub SpacedLines : List (ℕ × Line) → Type 0
SpacedLines [] = Unit
SpacedLines (l ∷ ls) = Spaced l.0 l.1.levels ls

-- Whether a line is printed, and what is kept of it.
Printing : ℕ → List ℕ → Battery → Battery → Type 0
Printing now levels s s' =
    (s'.last_event_print_ms ≡ now)
    × (s'.last_printed ≡ levels)
    × (same_text levels s.last_printed ≡ false)
    × ((s.last_event_print_ms ≡ 0) ⊎ (s.last_event_print_ms + batt_event_min_interval_ms ≤ now))

should_cases :
    (now : ℕ) (levels : List ℕ) (s : Battery)
    → let (s', prints) = batt_event_should_print now levels s in
      ((prints ≡ false) × (s' ≡ s)) ⊎ ((prints ≡ true) × Printing now levels s s')
unfolding batt_event_should_print Printing
should_cases now levels s = ground arith

same_last :
    (c : Change) (s : Battery)
    → ((note_soc c s).last_event_print_ms ≡ s.last_event_print_ms)
      × ((note_soc c s).last_printed ≡ s.last_printed)
same_last (Change.peripheral soc) s = (refl, refl)
same_last Change.charging s = (refl, refl)
same_last Change.own s = (refl, refl)

ne_of_same : (xs ys : List ℕ) → same_text xs ys ≡ false → xs ≢ ys
ne_of_same xs ys h e = cc (same_text_refl xs, ap (same_text xs) e)

Spaced-subst :
    (a b : ℕ) (x y : List ℕ) (ls : List (ℕ × Line)) → a ≡ b → x ≡ y → Spaced a x ls → Spaced b y ls
Spaced-subst a b x y ls e f h = subst (λ n. Spaced n y ls) e (subst (λ z. Spaced a z ls) f h)

-- After a line, the next ones are spaced; without one before, they are so among themselves.
printed-Spaced :
    (es : List Input) (s : Battery)
    → All (λ e. 0 < e.now) es
    → SpacedLines (printed es s)
      × (0 < s.last_event_print_ms → Spaced s.last_event_print_ms s.last_printed (printed es s))
unfolding printed totem_batt_listener totem_batt_print Printing
printed-Spaced [] s h = (tt, λ pos. tt)
printed-Spaced (e ∷ es) s h =
    let before = note_soc e.change s in
    let s' = (batt_event_should_print e.now e.levels before).0 in
    let rest = printed-Spaced es s' h.1 in
    let (last, text) = same_last e.change s in
    elim (should_cases e.now e.levels before) [
      | inl (no_line, same) ↦
          let at = ap (λ r. r.last_event_print_ms) same ∙ last in
          let shown = ap (λ r. r.last_printed) same ∙ text in
          rw no_line (
            rest.0,
            λ pos.
                Spaced-subst s'.last_event_print_ms s.last_event_print_ms s'.last_printed
                  s.last_printed (printed es s') at shown (rest.1 (omega (arith, at))),
          )
      | inr (line, (at, shown, differs, gap)) ↦
          let spaced =
            Spaced-subst s'.last_event_print_ms e.now s'.last_printed e.levels (printed es s') at
              shown (rest.1 (omega (arith, at, h.0))) in
          rw line (
            spaced,
            λ pos. (
              record {
                later = elim gap [
                  | inl zero_last ↦ absurd (omega (arith, zero_last, last, pos))
                  | inr enough ↦ omega (arith, enough, last)
                ];
                changed = λ same. ne_of_same e.levels before.last_printed differs (same ∙ sym text);
              },
              spaced,
            ),
          )
    ]

-- The events of the battery, at uptimes that are not 0, print at most one line a second, and no line
-- with the levels of the one before, whatever the events are and whatever was printed before.
pub printed-SpacedLines :
    (es : List Input) (s : Battery) → All (λ e. 0 < e.now) es → SpacedLines (printed es s)
printed-SpacedLines es s h = (printed-Spaced es s h).0
