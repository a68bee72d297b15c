-- ===== src/Scenarios/Rotation.antt =====
-- The transitions of a concrete group.
use pretrend_ai.Base.{ℕ, ◌≡◌, leb, List, [], ◌∷◌, keep}
use pretrend_ai.Base.Float.{decimal}
use pretrend_ai.Regime.Rotation.{Group, Kept, Transition, group_transitions}
use pretrend_ai.Regime.Rotation.PointInTime.{early, rotation_no_look_ahead}

abbrev middle : List decimal.F → decimal.F
middle values = decimal.lit 1 2

abbrev candidate : ℕ → Group → Kept decimal middle
candidate d g = record { date = d; group = g; strength = decimal.lit 5 2 }

abbrev rows : List (Kept decimal middle)
rows =
    candidate 8 Group.bond
    ∷ candidate 8 Group.bond
    ∷ candidate 9 Group.bond
    ∷ candidate 9 Group.sector
    ∷ candidate 12 Group.bond
    ∷ []

rotation_no_look_ahead_example :
    keep
      (λ (r : Transition decimal middle). leb r.day.date 9)
      (group_transitions decimal middle Group.bond rows)
    ≡ group_transitions decimal middle Group.bond (early decimal middle 9 rows)
rotation_no_look_ahead_example = rotation_no_look_ahead decimal middle 9 Group.bond rows
