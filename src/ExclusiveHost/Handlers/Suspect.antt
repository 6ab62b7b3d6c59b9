-- ===== src/ExclusiveHost/Handlers/Suspect.antt =====
-- The class A detector: repeated authentication failures without eviction thrash.
use totem_zmk_config.Prelude.{
  ℕ, zero, suc, ◌+◌, ◌-◌, ◌≤◌, ◌<◌, ◌≡◌, refl, sym, ◌∙◌, arith, List, [], ◌∷◌, ◌++◌, if◌then◌else◌,
  leb, length, take, drop, set, get_or, length-set, take-set, drop-set, append_assoc, subst,
  drop-cons, append-nil, Bool-cases, inl, inr,
}
use totem_zmk_config.ExclusiveHost.{
  Guard, class_a_add, class_a_window_ms, class_a_fail_threshold, keep_recent, shift_in,
  class_a_store,
}

-- The failures of the window, oldest first.
pub recent : ℕ → List ℕ → List ℕ
recent now [] = []
recent now (t ∷ ts) =
    let rest = recent now ts in if leb (now - t) class_a_window_ms then t ∷ rest else rest

-- The last three of a list, or all of it.
abbrev pub newest3 : List ℕ → List ℕ
newest3 ts = drop (length ts - class_a_fail_threshold) ts

-- The failures that a state remembers, oldest first.
abbrev pub failures : Guard → List ℕ
failures s = take s.class_a_fail_count s.class_a_fail_ts

pub record IsDetector (s : Guard) : Type 0 where
  pub storage : length s.class_a_fail_ts ≡ class_a_fail_threshold
  pub count_in : s.class_a_fail_count ≤ class_a_fail_threshold

take-drop :
    (k i : ℕ) (ts : List ℕ)
    → i < length ts
    → take (suc k) (drop i ts) ≡ get_or ts i 0 ∷ take k (drop (i + 1) ts)
take-drop k i [] h = absurd (omega arith)
take-drop k zero (t ∷ ts) h = refl
take-drop k (suc i) (t ∷ ts) h =
    rw (drop-cons (i + 1) (suc i + 1) t ts (omega arith)) (take-drop k i ts (omega arith))

-- A kept failure moves from the front of what is left to the end of what is kept.
keep_one :
    (now kept i k : ℕ) (ts : List ℕ) (v : ℕ)
    → kept ≤ i
    → i < length ts
    → take (kept + 1) (set ts kept v) ++ recent now (take k (drop (i + 1) (set ts kept v)))
      ≡ take kept ts ++ v ∷ recent now (take k (drop (i + 1) ts))
keep_one now kept i k ts v h l =
    let front : take (kept + 1) (set ts kept v) ≡ take kept ts ++ v ∷ [] =
      subst (λ m. take m (set ts kept v) ≡ take kept ts ++ v ∷ []) {x = suc kept} (omega arith)
        (take-set kept ts v (omega arith)) in
    rw (drop-set (i + 1) kept ts v (omega arith), front)
      (append_assoc (take kept ts) (v ∷ []) (recent now (take k (drop (i + 1) ts))))

-- The loop compacts the recent failures to the front of the array, in their order.
pub keep_recent-recent :
    (now kept i k : ℕ) (ts : List ℕ)
    → kept ≤ i
    → i + k ≤ length ts
    → take (keep_recent now ts kept i k).1 (keep_recent now ts kept i k).0
      ≡ take kept ts ++ recent now (take k (drop i ts))
unfolding keep_recent recent
keep_recent-recent now kept i zero ts h l = sym (append-nil (take kept ts))
keep_recent-recent now kept i (suc k) ts h l =
    elim (Bool-cases (leb (now - get_or ts i 0) class_a_window_ms)) [
      | inl e ↦
          rw (keep_recent, e) rw (take-drop k i ts (omega arith)) rw (recent, e)
            (keep_recent-recent now (kept + 1) (i + 1) k (set ts kept (get_or ts i 0)) (omega arith)
                (omega (arith, length-set ts kept (get_or ts i 0)))
              ∙ keep_one now kept i k ts (get_or ts i 0) h (omega arith))
      | inr e ↦
          rw (keep_recent, e) rw (take-drop k i ts (omega arith)) rw (recent, e)
            (keep_recent-recent now kept (i + 1) k ts (omega arith) (omega arith))
    ]

-- The array keeps its size, and no more is kept than was there.
keep_recent-bounds :
    (now kept i k : ℕ) (ts : List ℕ)
    → (length (keep_recent now ts kept i k).0 ≡ length ts)
      × ((keep_recent now ts kept i k).1 ≤ kept + k)
unfolding keep_recent
keep_recent-bounds now kept i zero ts = (refl, omega arith)
keep_recent-bounds now kept i (suc k) ts =
    elim (Bool-cases (leb (now - get_or ts i 0) class_a_window_ms)) [
      | inl e ↦
          rw (keep_recent, e) ground
            (
              arith,
              keep_recent-bounds now (kept + 1) (i + 1) k (set ts kept (get_or ts i 0)),
              length-set ts kept (get_or ts i 0),
            )
      | inr e ↦ rw (keep_recent, e) ground (arith, keep_recent-bounds now kept (i + 1) k ts)
    ]

class_a_store-newest3 :
    (now kept : ℕ) (ts : List ℕ) (s : Guard)
    → length ts ≡ class_a_fail_threshold
    → kept ≤ class_a_fail_threshold
    → IsDetector (class_a_store now ts kept s)
      × (failures (class_a_store now ts kept s) ≡ newest3 (take kept ts ++ now ∷ []))
unfolding class_a_store shift_in
class_a_store-newest3 now zero (a ∷ b ∷ c ∷ []) s h k =
    (record { storage = refl; count_in = omega arith }, refl)
class_a_store-newest3 now (suc zero) (a ∷ b ∷ c ∷ []) s h k =
    (record { storage = refl; count_in = omega arith }, refl)
class_a_store-newest3 now (suc (suc zero)) (a ∷ b ∷ c ∷ []) s h k =
    (record { storage = refl; count_in = omega arith }, refl)
class_a_store-newest3 now (suc (suc (suc zero))) (a ∷ b ∷ c ∷ []) s h k =
    (record { storage = refl; count_in = omega arith }, refl)
class_a_store-newest3 now (suc (suc (suc (suc n)))) (a ∷ b ∷ c ∷ []) s h k = absurd (omega arith)
class_a_store-newest3 now kept (a ∷ b ∷ c ∷ d ∷ ts) s h k = absurd (omega arith)
class_a_store-newest3 now kept (a ∷ b ∷ []) s h k = absurd (omega arith)
class_a_store-newest3 now kept (a ∷ []) s h k = absurd (omega arith)
class_a_store-newest3 now kept [] s h k = absurd (omega arith)

-- In a detector of three places, an authentication failure drops those remembered that are over a minute old, and adds itself;
-- of more than three, the newest three stay, in their order.
pub failures-class_a_add :
    (now : ℕ) (s : Guard)
    → IsDetector s
    → IsDetector (class_a_add now s)
      × (failures (class_a_add now s) ≡ newest3 (recent now (failures s) ++ now ∷ []))
unfolding class_a_add
failures-class_a_add now s v =
    let (ts, kept) = keep_recent now s.class_a_fail_ts 0 0 s.class_a_fail_count in
    let bounds = keep_recent-bounds now 0 0 s.class_a_fail_count s.class_a_fail_ts in
    let same =
      keep_recent-recent now 0 0 s.class_a_fail_count s.class_a_fail_ts (omega arith)
        (omega (arith, v.storage, v.count_in)) in
    subst
      (λ l.
        IsDetector (class_a_store now ts kept s)
        × (failures (class_a_store now ts kept s) ≡ newest3 (l ++ now ∷ [])))
      same
      (class_a_store-newest3 now kept ts s (bounds.0 ∙ v.storage)
        (omega (arith, bounds.1, v.count_in)))
