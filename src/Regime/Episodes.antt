-- ===== src/Regime/Episodes.antt =====
-- Runs of equal states over a sorted series, and what the completed runs say of the current one:
-- `_build_state_history` of regime/transition/engine.py and the loop of `_build_group_transition` of
-- regime/rotation/engine.py, which share it.
pub mod PointInTime
pub mod Survival
use mathlib.Core.Logic.{ite}
use pretrend_ai.Base.{
  ℕ, suc, ◌+◌, List, [], ◌∷◌, map, Option, none, some, decided, length, take, keep, ltb,
  if◌then◌else◌,
}
use pretrend_ai.Base.Counter.{most_common}
use pretrend_ai.Base.Float.{FloatOps}
use pretrend_ai.Base.Int.{pos}

-- A row with its episode's number and its position in the episode, from 1.
pub record Placed {ℓ} (K : Type ℓ) : Type ℓ where
  pub key : K
  pub episode_id : ℕ
  pub age : ℕ

pub record Episode {ℓ} (K : Type ℓ) : Type ℓ where
  pub key : K
  pub duration : ℕ
  pub next_state : Option K

unfoldable pub survived : List ℕ → ℕ → ℕ → ℕ
survived durations age horizon = length (keep (λ d. ltb (age + horizon) d) durations)

module _ {ℓ} {K : Type ℓ} where
  unfoldable pub first_key : List (K × ℕ) → Option K
  first_key [] = none
  first_key ((k, n) ∷ rs) = some k

  -- `next_state`, by `shift(-1)`
  unfoldable pub with_next : List (K × ℕ) → List (Episode K)
  unfolding first_key
  with_next [] = []
  with_next ((k, n) ∷ rs) =
      record { key = k; duration = n; next_state = first_key rs } ∷ with_next rs

  abbrev next_states : List (Episode K) → List K
  next_states [] = []
  next_states (e ∷ es) = elim e.next_state [ none ↦ next_states es | some k ↦ k ∷ next_states es ]

  -- the episodes that outlived this age, and those of them that also outlived the horizon
  unfoldable pub at_risk : List (Episode K) → ℕ → List ℕ
  at_risk prior age = keep (λ d. ltb age d) (map (λ e. e.duration) prior)

  -- `survived / len(at_risk)` as its two numbers
  unfoldable pub survival : List (Episode K) → ℕ → ℕ → Option (ℕ × ℕ)
  unfolding at_risk survived
  survival prior age horizon =
      let risk = at_risk prior age in
      if ltb (length prior) 3
      then none
      else if ltb 0 (length risk)
      then some (survived risk age horizon, length risk)
      else none

module _ {ℓ} {K : Type ℓ} (dec : Discrete K) where
  -- the loop over the states, and `groupby("episode_id").cumcount() + 1`
  unfoldable pub place_from : K → ℕ → ℕ → List K → List (Placed K)
  place_from prev ep age [] = []
  place_from prev ep age (k ∷ ks) =
      let same =
        record { key = k; episode_id = ep; age = age + 1 } ∷ place_from k ep (age + 1) ks in
      let new = record { key = k; episode_id = ep + 1; age = 1 } ∷ place_from k (ep + 1) 1 ks in
      ite (dec k prev) same new

  unfoldable pub place : List K → List (Placed K)
  unfolding place_from
  place [] = []
  place (k ∷ ks) = record { key = k; episode_id = 0; age = 1 } ∷ place_from k 0 1 ks

  -- `groupby("episode_id").agg(duration=size, state_key=first)`
  unfoldable pub runs_from : K → ℕ → List K → List (K × ℕ)
  runs_from prev n [] = (prev, n) ∷ []
  runs_from prev n (k ∷ ks) =
      let same = runs_from prev (n + 1) ks in
      let new = (prev, n) ∷ runs_from k 1 ks in ite (dec k prev) same new

  unfoldable pub episodes : List K → List (Episode K)
  unfolding runs_from with_next
  episodes [] = []
  episodes (k ∷ ks) = with_next (runs_from k 1 ks)

  -- the earlier episodes of the same state
  unfoldable pub prior_episodes : List (Episode K) → Placed K → List (Episode K)
  prior_episodes eps row = keep (λ e. decided dec e.key row.key) (take row.episode_id eps)

  -- `expected`: `none` stands for "UNKNOWN"
  unfoldable pub expected : List (Episode K) → Option K
  expected prior =
      if ltb (length prior) 3 then none else most_common (decided dec) (next_states prior)

pub record Stats {ℓ} (K : Type ℓ) : Type ℓ where
  pub state : K
  pub age_days : ℕ
  pub expected_state : Option K
  pub survivals : List (Option (ℕ × ℕ))

module _ {ℓ} {K : Type ℓ} (dec : Discrete K) (horizon_days : List ℕ) where
  unfoldable pub stats : List (Episode K) → Placed K → Stats K
  unfolding prior_episodes expected survival
  stats eps row =
      let prior = prior_episodes dec eps row in
      record {
        state = row.key;
        age_days = row.age;
        expected_state = expected dec prior;
        survivals = map (survival prior row.age) horizon_days;
      }

  -- one row of the history frame for each row of the series
  unfoldable pub state_history : List K → List (Stats K)
  unfolding place episodes stats
  state_history ks = map (stats (episodes dec ks)) (place dec ks)

-- `p = survived / len(at_risk)` and `1.0 - p`
module _ (fl : FloatOps) where
  open fl use {F, lit, of_int, sub, div}

  unfoldable pub sojourn_prob : Option (ℕ × ℕ) → Option F
  sojourn_prob none = none
  sojourn_prob (some (s, n)) = some (div (of_int (pos s)) (of_int (pos n)))

  unfoldable pub transition_hazard : Option (ℕ × ℕ) → Option F
  transition_hazard none = none
  transition_hazard (some (s, n)) = some (sub (lit 10 1) (div (of_int (pos s)) (of_int (pos n))))
