-- ===== src/SharedMutex/Totals.antt =====
-- Counting the threads in a phase.
use alto.Prelude.{
  ℕ, zero, suc, ◌+◌, ◌≤◌, ◌≡◌, refl, List, [], ◌∷◌, some, get_elem?, set, length, replicate, arith,
}
use alto.SharedMutex.{
  Phase, idle, read_left, read_blocked, read_woken, reading_notifies, reading, write_waiting,
  writing, passing, wake_all,
}

abbrev pub reads : Phase → ℕ
reads reading_notifies = 1
reads reading = 1
reads _ = 0

abbrev pub writes : Phase → ℕ
writes writing = 1
writes _ = 0

abbrev pub passes : Phase → ℕ
passes passing = 1
passes _ = 0

abbrev pub awaits_write : Phase → ℕ
awaits_write write_waiting = 1
awaits_write _ = 0

abbrev pub awaits_read : Phase → ℕ
awaits_read read_left = 1
awaits_read read_blocked = 1
awaits_read read_woken = 1
awaits_read _ = 0

unfoldable pub total : (Phase → ℕ) → List Phase → ℕ
total f [] = 0
total f (p ∷ ps) = f p + total f ps

module _ (f : Phase → ℕ) where
  pub total-set :
      (ps : List Phase) (i : ℕ) (p q : Phase)
      → get_elem? ps i ≡ some p
      → total f (set ps i q) + f p ≡ total f ps + f q
  unfolding total
  total-set [] i p q e = absurd (ground arith)
  total-set (x ∷ ps) zero p q e = ground arith
  total-set (x ∷ ps) (suc i) p q e = ground (arith, total-set ps i p q e)

  pub total_ge : (ps : List Phase) (i : ℕ) (p : Phase) → get_elem? ps i ≡ some p → f p ≤ total f ps
  unfolding total
  total_ge [] i p e = absurd (ground arith)
  total_ge (x ∷ ps) zero p e = ground arith
  total_ge (x ∷ ps) (suc i) p e = ground (arith, total_ge ps i p e)

  -- Two threads are counted apart.
  pub total_two :
      (ps : List Phase) (i j : ℕ) (p q : Phase)
      → get_elem? ps i ≡ some p
      → get_elem? ps j ≡ some q
      → (i ≡ j → ⊥)
      → f p + f q ≤ total f ps
  unfolding total
  total_two [] i j p q e d ne = absurd (ground arith)
  total_two (x ∷ ps) zero zero p q e d ne = absurd (ne refl)
  total_two (x ∷ ps) zero (suc j) p q e d ne = ground (arith, total_ge ps j q d)
  total_two (x ∷ ps) (suc i) zero p q e d ne = ground (arith, total_ge ps i p e)
  total_two (x ∷ ps) (suc i) (suc j) p q e d ne =
      ground (arith, total_two ps i j p q e d (λ h. ne (omega arith)))

  pub total_le : ((p : Phase) → f p ≤ 1) → (ps : List Phase) → total f ps ≤ length ps
  unfolding total
  total_le one [] = omega arith
  total_le one (p ∷ ps) = omega (arith, one p, total_le one ps)

  pub total-wake_all :
      (f read_woken ≡ f read_blocked) → (ps : List Phase) → total f (wake_all ps) ≡ total f ps
  unfolding total wake_all
  total-wake_all same [] = refl
  total-wake_all same (p ∷ ps) = ground (arith, total-wake_all same ps, same)

  pub total-replicate : (n : ℕ) → f idle ≡ 0 → total f (replicate n idle) ≡ 0
  unfolding total
  total-replicate zero h = refl
  total-replicate (suc n) h = omega (arith, total-replicate n h)

  pub total_zero :
      (ps : List Phase) → ((j : ℕ) (q : Phase) → get_elem? ps j ≡ some q → f q ≡ 0) → total f ps ≡ 0
  unfolding total
  total_zero [] h = refl
  total_zero (p ∷ ps) h = omega (arith, h zero p refl, total_zero ps (λ j q e. h (suc j) q e))

pub length-wake_all : (ps : List Phase) → length (wake_all ps) ≡ length ps
unfolding wake_all
length-wake_all [] = refl
length-wake_all (p ∷ ps) = omega (arith, length-wake_all ps)
