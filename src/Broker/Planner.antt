-- ===== src/Broker/Planner.antt =====
-- src/pretrend/pipeline/broker/execution_planner.py: the target orders of the broker account. Symbols and
-- groups are in capitals already, a strength that is no number is `none`, the universe has the columns that
-- are read, and the dates and the job that every row repeats are left out.
use pretrend_ai.Base.{
  ℕ, ◌-◌, Bool, Option, none, some, List, [], ◌∷◌, ◌++◌, keep, any, take, map, length,
}
use pretrend_ai.Base.Int.{pos, pos_part}
use pretrend_ai.Base.Float.{FloatOps, fmax}
use pretrend_ai.Base.Dict.{put}
use pretrend_ai.Base.Sort.{sort}
use pretrend_ai.Regime.Labels.{Bias}
use pretrend_ai.Backtest.Rebalancer.{Names, UniverseRow, Weights}

module _ (fl : FloatOps) (names : Names) where
  open fl use {F, lit, of_int, add, sub, mul, div, lt, le, eq, round, trunc}
  open names use {S, same_symbol, spy, schd, G, same_group}

  -- `_CORE_BASE_WEIGHTS` and `_TACTICAL_GROUPS`, with the names that they mention
  pub record Universe : Type 0 where
    pub iau : S
    pub tactical_groups : List G

  abbrev pub core_base_weights : Universe → Weights fl names
  core_base_weights u = (spy, lit 30 2) ∷ (schd, lit 50 2) ∷ (u.iau, lit 20 2) ∷ []

  abbrev pub tactical_weight : F
  tactical_weight = lit 15 2

  unfoldable pub sum_above_min : F → Weights fl names → F
  sum_above_min total [] = total
  sum_above_min total ((sym, w) ∷ ws) =
      sum_above_min (add total (fmax fl (lit 0 1) (sub w (lit 5 2)))) ws

  unfoldable pub max_tactical_slots : Universe → ℕ
  unfolding sum_above_min
  max_tactical_slots u =
      pos_part (trunc (div (sum_above_min (lit 0 0) (core_base_weights u)) tactical_weight))

  abbrev pub or_zero : Option F → F
  or_zero none = lit 0 1
  or_zero (some x) = x

  abbrev pub stronger_first : UniverseRow fl names → UniverseRow fl names → Bool
  stronger_first a b = lt (or_zero b.relative_strength) (or_zero a.relative_strength)

  abbrev pub per_group_limit : Bias → ℕ
  per_group_limit Bias.risk_on_bias = 2
  per_group_limit Bias.neutral_bias = 1
  per_group_limit Bias.risk_off_bias = 1
  per_group_limit Bias.unknown = 1

  pub record Slot : Type 0 where
    pub symbol : S
    pub asset_group : G

  abbrev pub slot_of : G → UniverseRow fl names → Slot
  slot_of g r = record { symbol = r.symbol; asset_group = g }

  -- the best candidates of each group in turn, until the slots are used up
  unfoldable pub fill_slots : ℕ → ℕ → List (UniverseRow fl names) → List G → List Slot
  unfolding sort
  fill_slots limit room rows [] = []
  fill_slots limit room rows (g ∷ gs) =
      let best = take limit (sort stronger_first (keep (λ r. same_group r.asset_group g) rows)) in
      let chosen = take room (map (slot_of g) best) in
      chosen ++ fill_slots limit (room - length chosen) rows gs

  abbrev pub tactical_rows : Universe → List (UniverseRow fl names) → List (UniverseRow fl names)
  tactical_rows u rows =
      keep (λ r. any (λ g. same_group r.asset_group g) u.tactical_groups)
        (keep (λ r. r.is_candidate) rows)

  unfoldable pub compute_tactical_slots : Universe → List (UniverseRow fl names) → Bias → List Slot
  unfolding fill_slots max_tactical_slots
  compute_tactical_slots u rows Bias.risk_off_bias = []
  compute_tactical_slots u rows bias =
      fill_slots (per_group_limit bias) (max_tactical_slots u) (tactical_rows u rows)
        u.tactical_groups

  abbrev pub core_part : F → Weights fl names → Weights fl names
  core_part remaining [] = []
  core_part remaining ((sym, w) ∷ ws) = (sym, round (mul w remaining) 10) ∷ core_part remaining ws

  unfoldable pub compute_core_weights : Universe → F → Weights fl names
  compute_core_weights u tactical_total =
      core_part (fmax fl (lit 0 1) (sub (lit 10 1) tactical_total)) (core_base_weights u)

  pub data Reason : Type 0 where
    core_target target_exit target_adjust target_zero : Reason
    tactical_target : G → Reason

  abbrev pub core_reasons : Weights fl names → List (S × Reason)
  core_reasons [] = []
  core_reasons ((sym, w) ∷ ws) = (sym, core_target) ∷ core_reasons ws

  unfoldable pub put_slots : List Slot → Weights fl names → Weights fl names
  put_slots [] ws = ws
  put_slots (s ∷ ss) ws = put_slots ss (put same_symbol s.symbol tactical_weight ws)

  unfoldable pub put_reasons : List Slot → List (S × Reason) → List (S × Reason)
  put_reasons [] rs = rs
  put_reasons (s ∷ ss) rs =
      put_reasons ss (put same_symbol s.symbol (tactical_target s.asset_group) rs)

  unfoldable pub compute_target_weights :
      Universe → List (UniverseRow fl names) → Bias → Weights fl names × List (S × Reason)
  unfolding compute_tactical_slots compute_core_weights put_slots put_reasons
  compute_target_weights u rows bias =
      let slots = compute_tactical_slots u rows bias in
      let core = compute_core_weights u (mul (of_int (pos (length slots))) tactical_weight) in
      (put_slots slots core, put_reasons slots (core_reasons core))
