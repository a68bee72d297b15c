-- ===== src/Regime/Episodes/PointInTime.antt =====
-- The history of a row reads nothing that comes after the row.
use mathlib.Core.Logic.{ite, if_pos, if_neg}
use mathlib.Core.Path.{subst}
use pretrend_ai.Base.{
  ℕ, zero, suc, ◌+◌, ◌≤◌, ◌≡◌, refl, List, [], ◌∷◌, ◌++◌, map, some, length, take, All, arith, ap,
  All-mono, take-map,
}
use pretrend_ai.Regime.Episodes.{
  Placed, Episode, place_from, place, runs_from, first_key, with_next, episodes, prior_episodes,
  stats, state_history,
}

module _ {ℓ} {K : Type ℓ} (dec : Discrete K) where
  -- how often the state changes
  changes : K → List K → ℕ
  changes prev [] = 0
  changes prev (k ∷ ks) = let more = suc (changes k ks) in ite (dec k prev) (changes k ks) more

  first_key-runs_from : (k : K) (n : ℕ) (ks : List K) → first_key (runs_from dec k n ks) ≡ some k
  unfolding first_key runs_from
  first_key-runs_from k n [] = refl
  first_key-runs_from k n (j ∷ ks) = elim (dec j k) [
    | yes p ↦ rw (if_pos _ p) (first_key-runs_from k (n + 1) ks)
    | no p ↦ rw (if_neg _ p)
  ]

  -- The episodes before the last one of a prefix are the same, whatever follows the prefix.
  take-episodes :
      (e : ℕ) (k : K) (n : ℕ) (xs ys : List K)
      → e ≤ changes k xs
      → take e (with_next (runs_from dec k n (xs ++ ys)))
        ≡ take e (with_next (runs_from dec k n xs))
  unfolding changes with_next runs_from
  take-episodes zero k n xs ys h = refl
  take-episodes (suc e) k n [] ys h = absurd (omega arith)
  take-episodes (suc e) k n (x ∷ xs) ys h = elim (dec x k) [
    | yes p ↦
        rw (if_pos _ p, if_pos _ p)
          (take-episodes (suc e) k (n + 1) xs ys
            (subst (λ z. suc e ≤ changes z xs) p (rw (if_pos _ p) at h)))
    | no p ↦
        let h' : suc e ≤ suc (changes x xs) = rw (if_neg _ p) at h in
        rw (if_neg _ p, if_neg _ p, first_key-runs_from, first_key-runs_from)
          (ap (λ r. record { key = k; duration = n; next_state = some x } ∷ r)
            (take-episodes e x 1 xs ys (omega arith)))
  ]

  -- A row of a prefix stands in an episode that begins within the prefix.
  place_from-changes :
      (prev : K) (ep age : ℕ) (xs : List K)
      → All (λ row. row.episode_id ≤ ep + changes prev xs) (place_from dec prev ep age xs)
  unfolding place_from changes
  place_from-changes prev ep age [] = tt
  place_from-changes prev ep age (x ∷ xs) = elim (dec x prev) [
    | yes p ↦ rw (if_pos _ p, if_pos _ p) (omega arith, place_from-changes x ep (age + 1) xs)
    | no p ↦
        rw (if_neg _ p, if_neg _ p)
          (
            omega arith,
            All-mono (λ row. row.episode_id ≤ ep + 1 + changes x xs)
                (λ row. row.episode_id ≤ ep + suc (changes x xs)) (λ row h. omega arith) _
                (place_from-changes x (ep + 1) 1 xs),
          )
  ]

  place_from-append :
      (prev : K) (ep age : ℕ) (xs ys : List K)
      → take (length xs) (place_from dec prev ep age (xs ++ ys)) ≡ place_from dec prev ep age xs
  unfolding place_from
  place_from-append prev ep age [] ys = refl
  place_from-append prev ep age (x ∷ xs) ys = elim (dec x prev) [
    | yes p ↦ rw (if_pos _ p, if_pos _ p, place_from-append x ep (age + 1) xs ys)
    | no p ↦ rw (if_neg _ p, if_neg _ p, place_from-append x (ep + 1) 1 xs ys)
  ]

  module _ (horizon_days : List ℕ) where
    stats-episodes :
        (eps₁ eps₂ : List (Episode K)) (row : Placed K)
        → take row.episode_id eps₁ ≡ take row.episode_id eps₂
        → stats dec horizon_days eps₁ row ≡ stats dec horizon_days eps₂ row
    unfolding stats prior_episodes
    stats-episodes eps₁ eps₂ row h = rw h

    map-stats :
        (eps₁ eps₂ : List (Episode K)) (rows : List (Placed K))
        → All (λ row. take row.episode_id eps₁ ≡ take row.episode_id eps₂) rows
        → map (stats dec horizon_days eps₁) rows ≡ map (stats dec horizon_days eps₂) rows
    map-stats eps₁ eps₂ [] h = refl
    map-stats eps₁ eps₂ (row ∷ rows) h =
        rw (stats-episodes eps₁ eps₂ row h.0, map-stats eps₁ eps₂ rows h.1)

    -- The history of a series has the history of each of its prefixes as its beginning: no row's age,
    -- expected state or survival counts depend on a later row.
    pub state_history_no_look_ahead :
        (xs ys : List K)
        → take (length xs) (state_history dec horizon_days (xs ++ ys))
          ≡ state_history dec horizon_days xs
    unfolding state_history place episodes
    state_history_no_look_ahead [] ys = refl
    state_history_no_look_ahead (x ∷ xs) ys =
        let eps₁ = with_next (runs_from dec x 1 (xs ++ ys)) in
        let eps₂ = with_next (runs_from dec x 1 xs) in
        let first : Placed K = record { key = x; episode_id = 0; age = 1 } in
        let rest = place_from dec x 0 1 xs in
        let same : All (λ row. take row.episode_id eps₁ ≡ take row.episode_id eps₂) rest =
          All-mono (λ row. row.episode_id ≤ 0 + changes x xs)
            (λ row. take row.episode_id eps₁ ≡ take row.episode_id eps₂)
            (λ row h. take-episodes row.episode_id x 1 xs ys (omega arith)) rest
            (place_from-changes x 0 1 xs) in
        rw
          (
            stats-episodes eps₁ eps₂ first refl,
            take-map (length xs) (stats dec horizon_days eps₁) (place_from dec x 0 1 (xs ++ ys)),
            place_from-append x 0 1 xs ys,
          )
          (rw (map-stats eps₁ eps₂ rest same))
