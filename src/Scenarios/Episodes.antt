-- ===== src/Scenarios/Episodes.antt =====
-- Episodes of a concrete series of Booleans.
use pretrend_ai.Base.{ℕ, ◌≡◌, refl, Bool, true, false, some, List, [], ◌∷◌, ◌++◌, take}
use pretrend_ai.Regime.Episodes.{Episode, survival, survived, at_risk, state_history}
use pretrend_ai.Regime.Episodes.PointInTime.{state_history_no_look_ahead}

Bool-discrete : Discrete Bool
Bool-discrete = hlevel

abbrev series : List Bool
series = true ∷ true ∷ false ∷ true ∷ []

state_history_no_look_ahead_example :
    take 4 (state_history Bool-discrete (5 ∷ 10 ∷ []) (series ++ (true ∷ false ∷ [])))
    ≡ state_history Bool-discrete (5 ∷ 10 ∷ []) series
state_history_no_look_ahead_example =
    state_history_no_look_ahead Bool-discrete (5 ∷ 10 ∷ []) series (true ∷ false ∷ [])

abbrev lasted : ℕ → Episode Bool
lasted n = record { key = true; duration = n; next_state = some false }

abbrev earlier : List (Episode Bool)
earlier = lasted 3 ∷ lasted 9 ∷ lasted 20 ∷ []

-- at age 4 two of the three are at risk, and one of them outlives 10 more days
survival_10 : survival earlier 4 10 ≡ some (1, 2)
unfolding survival at_risk survived
survival_10 = refl

survival_20 : survival earlier 4 20 ≡ some (0, 2)
unfolding survival at_risk survived
survival_20 = refl

abbrev two : ℕ
two = 2
