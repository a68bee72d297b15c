-- ===== src/Backtest/Rebalancer.antt =====
-- src/pretrend/pipeline/backtest/rebalancer.py: the target weights of a day. The symbols and the asset
-- groups are parameters; `None` for a frame is the empty frame, and a NaN is `none`. The universe has
-- the columns `decision_date` and `is_candidate`.
use pretrend_ai.Base.{
  ℕ, Bool, true, false, ◌&&◌, ◌||◌, ◌==◌, ltb, Option, none, some, List, [], ◌∷◌, keep, any, take,
  map, length, if◌then◌else◌,
}
use pretrend_ai.Base.Int.{pos, pos_part}
use pretrend_ai.Base.Float.{FloatOps, fmin, fmax}
use pretrend_ai.Base.Dict.{get, put, has}
use pretrend_ai.Base.Sort.{sort}
use pretrend_ai.Base.AsOf.{window}
use pretrend_ai.Regime.Labels.{ShortSignal, MidRegime}
use pretrend_ai.Backtest.Portfolio.{Position, Portfolio, market_value, total_value}

-- The names of symbols and groups.
pub record Names : Type 1 where
  pub S : Type 0
  pub same_symbol : S → S → Bool
  pub spy : S
  pub schd : S
  pub G : Type 0
  pub same_group : G → G → Bool

-- the preset names that the code tells apart
pub data Preset : Type 0 where
  v3_4_1 v3_4_2a other_preset : Preset

pub record PolicyRow : Type 0 where
  pub date : ℕ
  pub run_universe : Bool
  pub risk_gate : Bool
  pub short_signal : ShortSignal
  pub mid_regime : MidRegime

module _ (fl : FloatOps) (names : Names) where
  open fl use {F, lit, of_int, add, sub, mul, div, lt, le, trunc}
  open names use {S, same_symbol, spy, schd, G, same_group}

  abbrev pub Weights : Type 0
  Weights = List (S × F)

  -- The fields of `BacktestConfig` that the rebalancing reads.
  pub record Config : Type 0 where
    pub preset_name : Preset
    pub tactical_groups : List G
    pub max_tactical_slots : ℕ
    pub tactical_weight : F
    pub initial_weights : Weights
    pub pre_schd_weights : Weights
    pub schd_start_date : ℕ
    pub initial_invested_ratio : F
    pub schd_sell_locked : Bool
    pub schd_min_weight : F

  pub record UniverseRow : Type 0 where
    pub decision_date : ℕ
    pub asset_group : G
    pub symbol : S
    pub is_candidate : Bool
    pub relative_strength : Option F

  abbrev pub active_weights : Config → ℕ → Weights
  active_weights config trade_date =
      if ltb trade_date config.schd_start_date
      then config.pre_schd_weights
      else config.initial_weights

  abbrev pub should_run_tactical : Option PolicyRow → Bool
  should_run_tactical none = false
  should_run_tactical (some row) = row.run_universe && row.risk_gate

  -- `a < b` of two cells
  abbrev pub lt_cell : Option F → Option F → Bool
  lt_cell none b = false
  lt_cell (some a) none = false
  lt_cell (some a) (some b) = lt a b

  abbrev pub strength_of_first : List UniverseRow → Option F
  strength_of_first [] = some (lit 0 1)
  strength_of_first (r ∷ rows) = r.relative_strength

  abbrev pub stronger_first : UniverseRow → UniverseRow → Bool
  stronger_first a b = lt_cell b.relative_strength a.relative_strength

  unfoldable pub tactical_candidates :
      List UniverseRow → List (S × F) → Config → ℕ → List UniverseRow
  unfolding window
  tactical_candidates universe prices config trade_date =
      let df = window (λ r. r.decision_date) trade_date universe in
      let spy_rs = strength_of_first (keep (λ r. same_symbol r.symbol spy) df) in
      keep (λ r. has same_symbol r.symbol prices)
        (keep (λ r. lt_cell spy_rs r.relative_strength)
          (keep (λ r. r.is_candidate)
            (keep (λ r. any (λ g. same_group r.asset_group g) config.tactical_groups) df)))

  unfoldable pub pick_tactical : List UniverseRow → List (S × F) → Config → ℕ → List S
  unfolding tactical_candidates sort
  pick_tactical universe prices config trade_date = take config.max_tactical_slots (
      map (λ r. r.symbol)
        (sort stronger_first (tactical_candidates universe prices config trade_date)))

  -- `sum` of the values, and of what each may lose above 0.05
  unfoldable pub sum_weights : F → Weights → F
  sum_weights total [] = total
  sum_weights total ((sym, w) ∷ ws) = sum_weights (add total w) ws

  unfoldable pub sum_deductable : F → Weights → F
  sum_deductable total [] = total
  sum_deductable total ((sym, w) ∷ ws) =
      sum_deductable (add total (fmax fl (lit 0 1) (sub w (lit 5 2)))) ws

  unfoldable pub deduct : F → F → Weights → Weights
  deduct tactical_total core_total [] = []
  deduct tactical_total core_total ((sym, w) ∷ ws) =
      (sym, fmax fl (lit 5 2) (sub w (mul tactical_total (div w core_total))))
      ∷ deduct tactical_total core_total ws

  unfoldable pub put_tactical : F → List S → Weights → Weights
  put_tactical w [] ws = ws
  put_tactical w (s ∷ ss) ws = put_tactical w ss (put same_symbol s w ws)

  -- `int(max_deductable / tactical_weight)` slots of the symbols, none of them when that is not positive
  abbrev pub affordable : F → F → List S → List S
  affordable max_deductable tactical_weight symbols =
      if lt max_deductable (mul (of_int (pos (length symbols))) tactical_weight)
      then take (pos_part (trunc (div max_deductable tactical_weight))) symbols
      else symbols

  abbrev pub place : Weights → F → F → List S → Weights
  place base core_total tactical_weight [] = base
  place base core_total tactical_weight (s ∷ ss) =
      put_tactical tactical_weight (s ∷ ss)
        (deduct (mul (of_int (pos (length (s ∷ ss)))) tactical_weight) core_total base)

  unfoldable pub apply_tactical : Weights → List S → Config → Weights
  unfolding sum_weights sum_deductable deduct put_tactical
  apply_tactical base symbols config =
      let core_total = sum_weights (lit 0 0) base in
      let max_deductable = sum_deductable (lit 0 0) base in
      if le core_total (lit 0 0)
      then base
      else place base core_total config.tactical_weight
          (affordable max_deductable config.tactical_weight symbols)

  abbrev pub or_initial : Option F → Config → F
  or_initial none config = config.initial_invested_ratio
  or_initial (some ratio) config = ratio

  -- `next_ratio` is the cell `next_invested_ratio` of the allocation row, if there is one
  unfoldable pub compute_target_weights :
      ℕ → Option PolicyRow → Option F → List UniverseRow → Config → List (S × F) → F × Weights
  unfolding pick_tactical apply_tactical
  compute_target_weights trade_date policy next_ratio universe config prices =
      let core = active_weights config trade_date in
      (
        or_initial next_ratio config,
        if should_run_tactical policy
            then apply_tactical core (pick_tactical universe prices config trade_date) config
            else core,
      )

  abbrev pub or_zero : Option F → F
  or_zero none = lit 0 1
  or_zero (some p) = p

  abbrev pub min_hold_of : Option (Position fl) → F → F → Config → F
  min_hold_of none price total_nav config = lit 0 1
  min_hold_of (some p) price total_nav config =
      let value = market_value fl S same_symbol p price in
      if le price (lit 0 0) || le p.shares (lit 0 0)
      then lit 0 1
      else if lt (lit 0 0) config.schd_min_weight
      then fmin fl value (mul total_nav config.schd_min_weight)
      else if config.schd_sell_locked
      then value
      else lit 0 1

  unfoldable pub schd_min_hold_value : Portfolio fl S → List (S × F) → Config → F
  unfolding total_value
  schd_min_hold_value portfolio prices config =
      min_hold_of (get same_symbol schd portfolio.positions) (or_zero (get same_symbol schd prices))
        (total_value fl S same_symbol portfolio prices) config

  -- The two month tests; `month` is the date library's.
  module _ (month : ℕ → ℕ) where
    abbrev pub other_month : ℕ → ℕ → Bool
    other_month d prev = if month d == month prev then false else true

    abbrev pub is_rebalance_day : ℕ → Option ℕ → Bool → Bool
    is_rebalance_day d none monthly = monthly
    is_rebalance_day d (some prev) monthly = monthly && other_month d prev

    abbrev pub is_first_of_month : ℕ → Option ℕ → Bool
    is_first_of_month d none = false
    is_first_of_month d (some prev) = other_month d prev
