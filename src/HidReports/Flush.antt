-- ===== src/HidReports/Flush.antt =====
-- Each change of a counter is reported once, with the right number.
use totem_zmk_config.Prelude.{
  ℕ, ◌+◌, ◌%◌, ◌<◌, ◌≡◌, refl, ap, ap₂, arith, true, false, ◌||◌, List, [], ◌∷◌, ◌++◌, length,
  get_or, set, get_or-set_self, length-set, ℤ, is_neg, magnitude, leb, ltb,
}
use totem_zmk_config.HidReports.{
  HidCount, no_count, Counts, count_one, out_of_range, count_event, flush_rows, flushed,
  flush_stages, flush_profiles, flush_counts,
}

stages_twice :
    (profile stage : ℕ) (cs : List HidCount)
    → flush_stages profile stage (flush_stages profile stage cs).0
      ≡ ((flush_stages profile stage cs).0, [], false)
unfolding flush_stages flush_rows
stages_twice profile stage [] = refl
stages_twice profile stage (c ∷ cs) =
    ap (λ x. (flushed c ∷ x.0, x.1, x.2)) (stages_twice profile (stage + 1) cs)

profiles_twice :
    (profile : ℕ) (counts : Counts)
    → flush_profiles profile (flush_profiles profile counts).0
      ≡ ((flush_profiles profile counts).0, [], false)
unfolding flush_profiles
profiles_twice profile [] = refl
profiles_twice profile (cs ∷ counts) =
    ap₂ (λ x y. (x.0 ∷ y.0, x.1 ++ y.1, x.2 || y.2)) (stages_twice profile 0 cs)
      (profiles_twice (profile + 1) counts)

-- A flush right after a flush reports nothing, changes nothing and does not ask to save.
pub flush_counts-flush_counts :
    (counts : Counts) → flush_counts (flush_counts counts).0 ≡ ((flush_counts counts).0, [], false)
unfolding flush_counts
flush_counts-flush_counts counts = profiles_twice 0 counts

-- The counter of a profile and a stage.
abbrev pub counter : Counts → ℤ → ℕ → HidCount
counter counts profile stage = get_or (get_or counts (magnitude profile) []) stage no_count

-- Calls of `count_event` for one counter, each with its time and error.
unfoldable pub count_all : ℤ → ℕ → List (ℕ × ℤ) → Counts → Counts
count_all profile stage [] counts = counts
count_all profile stage ((now, err) ∷ calls) counts =
    count_all profile stage calls (count_event now profile stage err counts).0

count-counter :
    (now : ℕ) (profile : ℤ) (stage : ℕ) (err : ℤ) (counts : Counts)
    → is_neg profile ≡ false
    → magnitude profile < length counts
    → stage < length (get_or counts (magnitude profile) [])
    → let counts' = (count_event now profile stage err counts).0 in
      (counter counts' profile stage ≡ count_one now err (counter counts profile stage))
      × (length counts' ≡ length counts)
      × (length (get_or counts' (magnitude profile) [])
          ≡ length (get_or counts (magnitude profile) []))
unfolding count_event out_of_range
count-counter now profile stage err counts n h k =
    let row = get_or counts (magnitude profile) [] in
    let one = count_one now err (get_or row stage no_count) in
    let valid : (is_neg profile || leb (length counts) (magnitude profile)) ≡ false =
      ground arith in
    let here = get_or-set_self counts (magnitude profile) (set row stage one) [] h in
    rw valid (
      rw here (get_or-set_self row stage one no_count k),
      length-set counts (magnitude profile) (set row stage one),
      rw here (length-set row stage one),
    )

one_more :
    (now : ℕ) (err : ℤ) (c : HidCount) (counts : Counts) (profile : ℤ) (stage : ℕ)
    → counter counts profile stage ≡ count_one now err c
    → ((counter counts profile stage).total ≡ (c.total + 1) % 65536)
      × ((counter counts profile stage).dirty ≡ true)
unfolding count_one
one_more now err c counts profile stage e = (ap (λ x. x.total) e, ap (λ x. x.dirty) e)

-- After calls of `count_event` for one profile and stage within the arrays, the counter has grown by
-- their number, modulo 65536, and is marked for the next flush if there was any.
count_all-total :
    (profile : ℤ) (stage : ℕ) (calls : List (ℕ × ℤ)) (counts : Counts)
    → is_neg profile ≡ false
    → magnitude profile < length counts
    → stage < length (get_or counts (magnitude profile) [])
    → (counter counts profile stage).total < 65536
    → ((counter (count_all profile stage calls counts) profile stage).total
        ≡ ((counter counts profile stage).total + length calls) % 65536)
      × ((counter (count_all profile stage calls counts) profile stage).dirty
          ≡ ((counter counts profile stage).dirty || ltb 0 (length calls)))
unfolding count_all
count_all-total profile stage [] counts n h k t = ground arith
count_all-total profile stage ((now, err) ∷ calls) counts n h k t =
    let counts' = (count_event now profile stage err counts).0 in
    let (here, len, row) = count-counter now profile stage err counts n h k in
    let fields = one_more now err (counter counts profile stage) counts' profile stage here in
    let rest =
      count_all-total profile stage calls counts' n (omega (arith, len, h)) (omega (arith, row, k))
        (omega (arith, fields.0)) in
    ground arith
