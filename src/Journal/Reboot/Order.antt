-- ===== src/Journal/Reboot/Order.antt =====
-- What reading all blocks restores, in whatever order they come.
use totem_zmk_config.Prelude.{
  ℕ, ◌≤◌, ◌≡◌, refl, sym, ◌∙◌, arith, subst, inl, inr, [], ◌∷◌, All, All-map,
}
use mathlib.Core.List.{Memᴰ}
use totem_zmk_config.Journal.{Log}
use totem_zmk_config.Journal.Layout.{Block, Payload}
use totem_zmk_config.Journal.Reboot.{Flash, load}
use totem_zmk_config.Journal.Reboot.Load.{IsStored, IsBehind, IsAt, IsBelow, load-IsAt}
use totem_zmk_config.Journal.Reboot.Saving.{InSync, IsWithin}

-- The same blocks, in any order.
pub record SameBlocks (g f : Flash) : Type 0 where
  pub all_there : All (λ c. Memᴰ c f) g
  pub none_lost : All (λ c. Memᴰ c g) f

all_here : (f g : Flash) → ((c : Block) → Memᴰ c f → Memᴰ c g) → All (λ c. Memᴰ c g) f
all_here [] g h = tt
all_here (c ∷ f) g h = (h c (Memᴰ.head refl), all_here f g (λ d m. h d (Memᴰ.tail m)))

pub SameBlocks-refl : (f : Flash) → SameBlocks f f
SameBlocks-refl f = record {
  all_there = all_here f f (λ c m. m);
  none_lost = all_here f f (λ c m. m);
}

pub all_at : (P : Block → Type 0) {c : Block} (f : Flash) → All P f → Memᴰ c f → P c
all_at P [] h m = elim m [ ]
all_at P (d ∷ f) h (Memᴰ.head e) = subst P (sym e) h.0
all_at P (d ∷ f) h (Memᴰ.tail m) = all_at P f h.1 m

no_blocks : (f g : Flash) → f ≡ [] → All (λ c. Memᴰ c f) g → g ≡ []
no_blocks f [] e h = refl
no_blocks f (c ∷ g) e h = elim (subst (λ x. Memᴰ c x) e h.0) [ ]

module _ (crc32 : Payload → ℕ) where
  pub spread : (P : Block → Type 0) (f g : Flash) → All P f → All (λ c. Memᴰ c f) g → All P g
  spread P f g h m = All-map (λ c. Memᴰ c f) P g (λ c i. all_at P f h i) m

  -- The order of the blocks does not matter.
  pub InSync-SameBlocks :
      (f g : Flash) (seq next saved : ℕ)
      → SameBlocks g f
      → InSync crc32 f seq next saved
      → InSync crc32 g seq next saved
  InSync-SameBlocks f g seq next saved o y = record {
    stored = spread (IsStored crc32) f g y.stored o.all_there;
    within = spread (IsWithin seq saved) f g y.within o.all_there;
    newest = elim y.newest [
      | inl (none_yet, n, s) ↦ inl (no_blocks f g none_yet o.all_there, n, s)
      | inr (b, m, n, s, k) ↦
          inr
            (b, all_at (λ c. Memᴰ c g) f o.none_lost m, n, s, spread (IsBehind b) f g k o.all_there)
    ];
  }

  -- A log without numbers of its own.
  pub record IsBlank (s : Log) : Type 0 where
    pub seq : s.journal_seq ≡ 0
    pub next : s.next_slot ≡ 0
    pub saved : s.persisted_event_seq ≡ 0

  -- Where reading the blocks leaves a log.
  pub record Restores (f : Flash) (seq next saved : ℕ) (s : Log) : Type 0 where
    pub sync : InSync crc32 f s.journal_seq s.next_slot s.persisted_event_seq
    pub seq_in : s.journal_seq ≤ seq
    pub next_is : s.next_slot ≡ next
    pub saved_is : s.persisted_event_seq ≡ saved

  load_none : (f : Flash) (s : Log) → f ≡ [] → load crc32 f s ≡ s
  unfolding load
  load_none [] s e = refl
  load_none (b ∷ f) s e = absurd cc

  at-IsWithin :
      (b : Block) (s : Log)
      → IsAt b s
      → (c : Block) → IsBehind b c
      → IsWithin s.journal_seq s.persisted_event_seq c
  at-IsWithin b s a c k = record {
    seq_in = omega (arith, a.seq, k.seq);
    last_in = omega (arith, a.last, k.last);
  }

  pub load-Restores :
      (f : Flash) (seq next saved : ℕ) (s : Log)
      → InSync crc32 f seq next saved
      → IsBlank s
      → Restores f seq next saved (load crc32 f s)
  load-Restores f seq next saved s y z = elim y.newest [
    | inl (none_yet, n, v) ↦ rw (load_none f s none_yet) (record {
      sync = record {
        stored = y.stored;
        within =
            subst (λ x. All (IsWithin s.journal_seq s.persisted_event_seq) x) (sym none_yet) tt;
        newest = inl (none_yet, z.next, z.saved);
      };
      seq_in = omega (arith, z.seq);
      next_is = z.next ∙ sym n;
      saved_is = z.saved ∙ sym v;
    })
    | inr (b, m, n, v, k) ↦
        let t = load crc32 f s in
        let below : IsBelow b s = record {
          seq = omega (arith, z.seq);
          last = omega (arith, z.saved);
        } in
        let a = load-IsAt crc32 b f s m y.stored k below in
        record {
          sync = record {
            stored = y.stored;
            within =
                All-map (IsBehind b) (IsWithin t.journal_seq t.persisted_event_seq) f
                  (at-IsWithin b t a) k;
            newest = inr (b, m, a.next, a.last, k);
          };
          seq_in = omega (arith, a.seq, (all_at (IsWithin seq saved) f y.within m).seq_in);
          next_is = a.next ∙ sym n;
          saved_is = a.last ∙ sym v;
        }
  ]
