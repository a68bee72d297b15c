-- ===== src/Regime/Episodes/Survival.antt =====
-- The counts behind the sojourn probabilities and the hazards.
use pretrend_ai.Base.{
  ℕ, ◌+◌, ◌≤◌, ◌<◌, ◌≡◌, List, [], ◌∷◌, some, length, ltb, arith, length-keep-le, length-map, map,
}
use pretrend_ai.Regime.Episodes.{Episode, survival, survived, at_risk}

-- Outliving a later day is rarer.
survived_antitone :
    (durations : List ℕ) (age h k : ℕ) → h ≤ k → survived durations age k ≤ survived durations age h
unfolding survived
survived_antitone [] age h k le = omega arith
survived_antitone (d ∷ ds) age h k le = ground (arith, survived_antitone ds age h k le)

length-survived : (durations : List ℕ) (age h : ℕ) → survived durations age h ≤ length durations
unfolding survived
length-survived durations age h = length-keep-le (λ d. ltb (age + h) d) durations

module _ {ℓ} {K : Type ℓ} (prior : List (Episode K)) (age : ℕ) where
  length-at_risk : length (at_risk prior age) ≤ length prior
  unfolding at_risk
  length-at_risk = omega (
    arith,
    length-keep-le (λ d. ltb age d) (map (λ e. e.duration) prior),
    length-map prior (λ e. e.duration),
  )

  -- A survival probability has a positive denominator, comes from at least three episodes of the
  -- same state, and is at most one.
  survival_bounds :
      (h : ℕ) {s n : ℕ}
      → survival prior age h ≡ some (s, n)
      → (s ≤ n) × (0 < n) × (n ≤ length prior) × (3 ≤ length prior)
  unfolding survival
  survival_bounds h e = ground (arith, length-at_risk, length-survived (at_risk prior age) age h)

  -- Over a longer horizon the survival probability has the same denominator and is no greater.
  survival_monotone :
      (h k : ℕ) {s n t m : ℕ}
      → h ≤ k
      → survival prior age h ≡ some (s, n)
      → survival prior age k ≡ some (t, m)
      → (m ≡ n) × (t ≤ s)
  unfolding survival
  survival_monotone h k le e f = ground (arith, survived_antitone (at_risk prior age) age h k le)
