-- ===== src/Paper/Simulation.antt =====
-- src/pretrend/pipeline/paper/execution.py: `simulate_paper_execution` and the lookups it makes, over days
-- that are ordinals. An exception leaves no result: `none`. The identifiers of the job, which every row
-- repeats, are left out. The exposures come sorted by date, one per date.
pub mod Day
pub mod Close
pub mod Run
pub mod Invariant
pub mod DayTrades
pub mod Weekdays
pub mod PricedTargets
pub mod Total
pub mod Tranches
pub mod Plan
pub mod PointInTime
pub mod LookAhead
pub mod WellFormed
pub mod Days
use pretrend_ai.Base.{
  ℕ, suc, ◌+◌, ◌%◌, Bool, true, false, ◌&&◌, ◌||◌, not, ◌==◌, ltb, leb, Option, none, some, List,
  [], ◌∷◌, ◌++◌, keep, length, if◌then◌else◌,
}
use pretrend_ai.Base.Float.{FloatOps, fmin, fmax, fneg}
use pretrend_ai.Base.Dict.{get, put}
use pretrend_ai.Base.AsOf.{window, latest_row}
use pretrend_ai.Regime.Labels.{Bias, ShortSignal, MidRegime}
use pretrend_ai.Strategy.Allocation.{Action, hold, increase, decrease}
use pretrend_ai.Backtest.Portfolio.{
  Position, Portfolio, Trade, market_value, invested_value, total_value, invested_ratio, add_cash,
}
use pretrend_ai.Backtest.Rebalancer.{
  Names, Preset, v3_4_1, v3_4_2a, other_preset, PolicyRow, Config, UniverseRow, Weights,
  active_weights, compute_target_weights, is_first_of_month,
}
use pretrend_ai.Paper.Rebalance.{Outcome, rebalance_to_target}
use pretrend_ai.Paper.Gates.{
  NextStep, GroupRow, bias_of_day, apply_soft_gate, apply_group_gate, apply_group_gate_v341,
}

-- `weekday()`: the proleptic ordinal 1 is a Monday
abbrev pub is_monday : ℕ → Bool
is_monday d = d % 7 == 1

abbrev pub is_tuesday : ℕ → Bool
is_tuesday d = d % 7 == 2

abbrev pub is_friday : ℕ → Bool
is_friday d = d % 7 == 5

module _ (fl : FloatOps) (names : Names) where
  open fl use {F, lit, add, sub, mul, div, lt, le, eq, round}
  open names use {S, same_symbol, spy, schd, G, same_group}

  pub record PriceRow : Type 0 where
    pub trade_date : ℕ
    pub symbol : S
    pub adj_close : F

  pub record Exposure : Type 0 where
    pub trade_date : ℕ
    pub action : Action
    pub next_invested_ratio : Option F

  pub record StagedSell : Type 0 where
    pub total_sell_amount : F
    pub tranches : List F
    pub tranche_idx : ℕ
    pub target_ratio : F

  -- The arguments of the simulation; `month` is the date library's.
  pub record Settings : Type 0 where
    pub config : Config fl names
    pub price_rows : List PriceRow
    pub policy_rows : List PolicyRow
    pub universe : List (UniverseRow fl names)
    pub next_steps : List NextStep
    pub groups : List (GroupRow fl names)
    pub initial_capital : F
    pub monthly_addition : F
    pub sell_tranches : List F
    pub schd_sell_locked : Bool
    pub schd_min_weight : F
    pub enable_predictor_gate : Bool
    pub max_invested_ratio : F
    pub month : ℕ → ℕ

  -- `PAPER_MAX_INVESTED_RATIO`; a text that is no number is `none`
  abbrev pub resolve_max_invested_ratio : Option F → F
  resolve_max_invested_ratio none = fmin fl (lit 10 1) (fmax fl (lit 0 1) (lit 8 1))
  resolve_max_invested_ratio (some v) = fmin fl (lit 10 1) (fmax fl (lit 0 1) v)

  abbrev pub Prices : Type 0
  Prices = List (S × F)

  unfoldable pub dict_of : Prices → List PriceRow → Prices
  dict_of d [] = d
  dict_of d (r ∷ rows) = dict_of (put same_symbol r.symbol r.adj_close d) rows

  unfoldable pub as_prices : List PriceRow → ℕ → Prices
  unfolding dict_of
  as_prices rows td = dict_of [] (keep (λ r. r.trade_date == td) rows)

  abbrev pub is_above_zero : Option F → Bool
  is_above_zero none = false
  is_above_zero (some price) = lt (lit 0 1) price

  abbrev pub is_valid : Prices → S × F → Bool
  is_valid prices (sym, w) = is_above_zero (get same_symbol sym prices) && lt (lit 0 1) w

  unfoldable pub sum_of : F → Weights fl names → F
  sum_of total [] = total
  sum_of total ((sym, w) ∷ ws) = sum_of (add total w) ws

  abbrev pub divided : F → Weights fl names → Weights fl names
  divided s [] = []
  divided s ((sym, w) ∷ ws) = (sym, div w s) ∷ divided s ws

  unfoldable pub normalize_weights : Weights fl names → Prices → Weights fl names
  unfolding sum_of
  normalize_weights weights prices =
      let valid = keep (is_valid prices) weights in
      let s = sum_of (lit 0 0) valid in if le s (lit 0 0) then [] else divided s valid

  -- `latest(x) or latest(y)`: the second list where the first is empty
  abbrev pub or_else : Weights fl names → Weights fl names → Weights fl names
  or_else [] other = other
  or_else (w ∷ ws) other = w ∷ ws

  -- The state of the loop between two rows of the exposures.
  pub record Guard : Type 0 where
    pub peak_nav : F
    pub paused : Bool
    pub paused_since : Option ℕ
    pub panic_streak : ℕ

  pub record LedgerRow : Type 0 where
    pub trade : Trade fl S
    pub sequence_id : ℕ

  pub record PortfolioRow : Type 0 where
    pub trade_date : ℕ
    pub cash : F
    pub invested_value : F
    pub nav : F
    pub total_invested_capital : F
    pub daily_pnl : Option F
    pub cumulative_pnl : Option F
    pub nav_breach : Bool
    pub peak_dd_breach : Bool
    pub guard : Guard

  pub record PositionRow : Type 0 where
    pub trade_date : ℕ
    pub symbol : S
    pub shares : F
    pub avg_cost : F
    pub eod_price : F
    pub market_value : F
    pub gain_pct : Option F
    pub weight : F

  pub record Account : Type 0 where
    pub book : Portfolio fl S
    pub total_invested_capital : F
    pub staged_sell : Option StagedSell
    pub prev_day : Option ℕ
    pub prev_nav : Option F
    pub relief_streak : ℕ
    pub group_gate_active : Bool
    pub guard : Guard
    pub ledger_rows : List LedgerRow
    pub pos_rows : List PositionRow
    pub pf_rows : List PortfolioRow
