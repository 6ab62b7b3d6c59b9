-- ===== src/Studio/Usb/Retries.antt =====
-- The retries end.
use totem_zmk_config.Prelude.{
  ℕ, ◌+◌, ◌≤◌, ◌≡◌, refl, arith, List, [], ◌∷◌, none, some, length, ◌⊎◌, inl, inr, Option-cases,
}
use totem_zmk_config.Studio.Usb.{
  Usb, Answer, max_tries, totem_studio_prefer_usb, Change, usb, endpoint, totem_studio_usb_listener,
  totem_studio_usb_kick, totem_studio_usb_init,
}

-- The work runs as long as it is scheduled, on the next answers: the number of runs too.
unfoldable pub fire_all : List Answer → Usb → Usb × ℕ
fire_all [] s = (s, 0)
fire_all (a ∷ as') s =
    let (last, runs) = fire_all as' (totem_studio_prefer_usb a s).0 in
    elim s.work [ none ↦ (s, 0) | some delay ↦ (last, 1 + runs) ]

idle_stays : (as' : List Answer) (s : Usb) → s.work ≡ none → fire_all as' s ≡ (s, 0)
unfolding fire_all
idle_stays [] s h = refl
idle_stays (a ∷ as') s h = rw h refl

fire-some :
    (a : Answer) (as' : List Answer) (s : Usb) (delay : ℕ)
    → s.work ≡ some delay
    → fire_all (a ∷ as') s ≡ (
      (fire_all as' (totem_studio_prefer_usb a s).0).0,
      1 + (fire_all as' (totem_studio_prefer_usb a s).0).1,
    )
unfolding fire_all
fire-some a as' s delay h = rw h refl

step_cases :
    (a : Answer) (s : Usb)
    → let s' = (totem_studio_prefer_usb a s).0 in
      s.tries ≤ max_tries → (s'.tries ≤ max_tries) × ((s'.work ≡ none) ⊎ (s'.tries ≡ s.tries + 1))
unfolding totem_studio_prefer_usb
step_cases a s h = ground arith

-- From a number of tries within the limit, the work comes to rest.
rest_from :
    (as' : List Answer) (s : Usb)
    → s.tries ≤ max_tries
    → max_tries + 1 ≤ s.tries + length as'
    → ((fire_all as' s).0.work ≡ none)
      × ((fire_all as' s).0.tries ≤ max_tries)
      × (s.tries + (fire_all as' s).1 ≤ max_tries + 1)
unfolding fire_all
rest_from [] s h enough = absurd (omega arith)
rest_from (a ∷ as') s h enough = elim (Option-cases s.work) [
  | inl e ↦ rw (idle_stays (a ∷ as') s e) (e, h, omega arith)
  | inr (delay, e) ↦
      let next = step_cases a s h in
      rw (fire-some a as' s delay e) (elim next.1 [
        | inl idle ↦
            rw (idle_stays as' (totem_studio_prefer_usb a s).0 idle) (idle, next.0, omega arith)
        | inr more ↦
            let rest = rest_from as' (totem_studio_prefer_usb a s).0 next.0 (omega (arith, more)) in
            (rest.0, rest.1, omega (arith, rest.2, more))
      ])
]

-- What happens to the module: an event of the cable or the endpoint, whose arguments are those of the
-- listener, or a moment at which the work runs if it is scheduled.
pub data Happening : Type 0 where
  heard : ℕ → ℕ → Change → Happening
  ran : Answer → Happening

unfoldable pub happen : Happening → Usb → Usb
happen (heard now transport change) s = (totem_studio_usb_listener now transport change s).0
happen (ran a) s = elim s.work [ none ↦ s | some delay ↦ (totem_studio_prefer_usb a s).0 ]

unfoldable pub after : List Happening → Usb → Usb
after [] s = s
after (h ∷ hs) s = after hs (happen h s)

happen_bound : (h : Happening) (s : Usb) → s.tries ≤ max_tries → (happen h s).tries ≤ max_tries
unfolding happen totem_studio_usb_listener totem_studio_usb_kick totem_studio_prefer_usb
happen_bound (heard now transport (usb state)) s v = v
happen_bound (heard now transport (endpoint new)) s v = v
happen_bound (ran a) s v = elim (Option-cases s.work) [
  | inl e ↦ rw e v
  | inr (delay, e) ↦ rw e (step_cases a s v).0
]

after_bound : (hs : List Happening) (s : Usb) → s.tries ≤ max_tries → (after hs s).tries ≤ max_tries
unfolding after
after_bound [] s v = v
after_bound (h ∷ hs) s v = after_bound hs (happen h s) (happen_bound h s v)

-- After any events of the cable and the endpoint and any runs of the work since boot, and once no
-- more such events come, the work comes to rest on any answers, of which 21 are enough: it runs at
-- most 21 times more, and never counts more than 20 tries.
pub retries_end :
    (hs : List Happening) (as' : List Answer)
    → max_tries + 1 ≤ length as'
    → let (last, runs) = fire_all as' (after hs totem_studio_usb_init) in
      (last.work ≡ none) × (last.tries ≤ max_tries) × (runs ≤ max_tries + 1)
unfolding totem_studio_usb_init
retries_end hs as' enough =
    let s = after hs totem_studio_usb_init in
    let rest = rest_from as' s (after_bound hs totem_studio_usb_init (omega arith)) (omega arith) in
    (rest.0, rest.1, omega (arith, rest.2))
