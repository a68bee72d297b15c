-- ===== src/Scenarios/Simulation.antt =====
-- Two days of the paper account: a Tuesday that buys and a Friday that sells the first tranche.
use pretrend_ai.Base.{
  ℕ, ◌≡◌, refl, ◌==◌, ◌/◌, ◌≤◌, ◌+◌, Bool, true, false, Option, none, some, List, [], ◌∷◌, is_some,
  arith,
}
use pretrend_ai.Base.Float.{decimal}
use pretrend_ai.Base.AsOf.{latest_row}
use pretrend_ai.Regime.Labels.{Bias, ShortSignal, MidRegime}
use pretrend_ai.Regime.Rotation.{GroupState}
use pretrend_ai.Strategy.Allocation.{Action}
use pretrend_ai.Backtest.Rebalancer.{
  Names, Config, UniverseRow, v3_4_1, compute_target_weights, active_weights,
}
use pretrend_ai.Paper.Gates.{NextStep, bias_of_day}
use pretrend_ai.Paper.RiskOff.{risk_off_keeps_core}
use pretrend_ai.Paper.Simulation.{
  Settings, Exposure, Account, PriceRow, Prices, StagedSell, as_prices, dict_of,
}
use pretrend_ai.Paper.Simulation.Day.{gate_config}
use pretrend_ai.Paper.Simulation.Run.{simulate_paper_execution, trading_of}
use pretrend_ai.Paper.Simulation.Invariant.{IfSome}
use pretrend_ai.Paper.Simulation.Weekdays.{
  LedgerIsProper, trades_only_on_their_days, SalesOnly, paused_buys_nothing,
}
use pretrend_ai.Paper.Simulation.Total.{simulation_ends}
use pretrend_ai.Paper.Simulation.Plan.{fridays, plan_over, staged_plan_ends}
use pretrend_ai.Paper.Simulation.PointInTime.{Later, IsAfter, extended}
use pretrend_ai.Paper.Simulation.LookAhead.{simulation_no_look_ahead}
use pretrend_ai.Paper.Simulation.Days.{HasRows}
use pretrend_ai.Paper.Simulation.WellFormed.{IsWellFormed, simulation-IsWellFormed}

abbrev names : Names
names = record {
  S = ℕ;
  same_symbol = λ a b. a == b;
  spy = 1;
  schd = 2;
  G = ℕ;
  same_group = λ a b. a == b;
}

abbrev config : Config decimal names
config = record {
  preset_name = v3_4_1;
  tactical_groups = 1 ∷ [];
  max_tactical_slots = 2;
  tactical_weight = decimal.lit 15 2;
  initial_weights = (1, decimal.lit 30 2) ∷ (2, decimal.lit 50 2) ∷ (3, decimal.lit 20 2) ∷ [];
  pre_schd_weights = (1, decimal.lit 70 2) ∷ (3, decimal.lit 30 2) ∷ [];
  schd_start_date = 10;
  initial_invested_ratio = decimal.lit 50 2;
  schd_sell_locked = true;
  schd_min_weight = decimal.lit 0 1;
}

abbrev price : ℕ → ℕ → ℕ → PriceRow decimal names
price d s p = record { trade_date = d; symbol = s; adj_close = decimal.lit p 0 }

abbrev candidate : ℕ → ℕ → UniverseRow decimal names
candidate s rs = record {
  decision_date = 99;
  asset_group = 1;
  symbol = s;
  is_candidate = true;
  relative_strength = some (decimal.lit rs 2);
}

abbrev settings_with : Bias → Settings decimal names
settings_with bias = record {
  config = config;
  price_rows =
      price 100 1 50
      ∷ price 100 2 20
      ∷ price 100 3 10
      ∷ price 100 4 5
      ∷ price 103 1 52
      ∷ price 103 2 21
      ∷ price 103 3 11
      ∷ price 103 4 6
      ∷ [];
  policy_rows =
      record {
        date = 99;
        run_universe = true;
        risk_gate = true;
        short_signal = ShortSignal.stable;
        mid_regime = MidRegime.neutral;
      }
      ∷ [];
  universe = candidate 1 10 ∷ candidate 4 20 ∷ [];
  next_steps =
      record {
        date = 99;
        bias_20d = bias;
        bias_candidate_20d = bias;
        held_by_cooldown = false;
        cooldown_compressed = false;
        hard_gate_exit_assist = false;
      }
      ∷ [];
  groups = [];
  initial_capital = decimal.lit 1000 0;
  monthly_addition = decimal.lit 100 0;
  sell_tranches = decimal.lit 50 2 ∷ decimal.lit 30 2 ∷ decimal.lit 20 2 ∷ [];
  schd_sell_locked = true;
  schd_min_weight = decimal.lit 0 1;
  enable_predictor_gate = true;
  max_invested_ratio = decimal.lit 10 1;
  month = λ d. d / 30;
}

abbrev settings : Settings decimal names
settings = settings_with Bias.risk_on_bias

abbrev row : ℕ → Action → ℕ → Exposure decimal names
row d action ratio = record {
  trade_date = d;
  action = action;
  next_invested_ratio = some (decimal.lit ratio 2);
}

abbrev days : List (Exposure decimal names)
days = row 100 Action.increase 80 ∷ row 103 Action.decrease 20 ∷ []

trades_only_on_their_days_example :
    IfSome
      (LedgerIsProper decimal names settings)
      (simulate_paper_execution decimal names settings days)
trades_only_on_their_days_example = trades_only_on_their_days decimal names settings days

simulation_ends_example : is_some (simulate_paper_execution decimal names settings days) ≡ true
simulation_ends_example = simulation_ends decimal names settings days

simulation-IsWellFormed_example :
    IfSome
      (λ a. IsWellFormed decimal names settings a × HasRows decimal names settings days a)
      (simulate_paper_execution decimal names settings days)
simulation-IsWellFormed_example = simulation-IsWellFormed decimal names settings (omega arith) days

-- an account that is paused, and one with a plan that has two tranches left
abbrev account : Bool → Option (StagedSell decimal names) → Account decimal names
account paused plan = record {
  book = record {
    cash = decimal.lit 100 0;
    positions = (1, record { shares = decimal.lit 4 0; avg_cost = decimal.lit 40 0 }) ∷ [];
  };
  total_invested_capital = decimal.lit 1000 0;
  staged_sell = plan;
  prev_day = none;
  prev_nav = none;
  relief_streak = 0;
  group_gate_active = false;
  guard = record {
    peak_nav = decimal.lit 1000 0;
    paused = paused;
    paused_since = none;
    panic_streak = 0;
  };
  ledger_rows = [];
  pos_rows = [];
  pf_rows = [];
}

abbrev plan : StagedSell decimal names
plan = record {
  total_sell_amount = decimal.lit 100 0;
  tranches = decimal.lit 50 2 ∷ decimal.lit 50 2 ∷ [];
  tranche_idx = 1;
  target_ratio = decimal.lit 20 2;
}

abbrev prices : Prices decimal names
prices = (1, decimal.lit 50 0) ∷ (2, decimal.lit 20 0) ∷ []

paused_buys_nothing_example :
    SalesOnly decimal names settings
      (trading_of decimal names settings (row 100 Action.increase 80) prices (account true none))
paused_buys_nothing_example =
    paused_buys_nothing decimal names settings (row 100 Action.increase 80) prices
      (account true none) refl

one_friday : 2 ≤ 1 + fridays decimal names settings days
unfolding fridays as_prices dict_of
one_friday = omega arith

staged_plan_ends_example : plan_over decimal names settings days (account false (some plan)) ≡ true
staged_plan_ends_example =
    staged_plan_ends decimal names settings days (account false (some plan)) plan refl (omega arith)
      one_friday

abbrev later : Later decimal names
later = record {
  price_rows = price 104 1 70 ∷ [];
  policy_rows = [];
  universe = [];
  next_steps = [];
  groups = record { date = 104; asset_group = 1; group_state_now = GroupState.weak } ∷ [];
}

later-IsAfter : IsAfter decimal names 103 later
later-IsAfter = record {
  price_rows_after = (refl, tt);
  policy_after = tt;
  universe_after = tt;
  next_steps_after = tt;
  groups_after = (refl, tt);
}

simulation_no_look_ahead_example :
    simulate_paper_execution decimal names (extended decimal names settings later) days
    ≡ simulate_paper_execution decimal names settings days
simulation_no_look_ahead_example =
    simulation_no_look_ahead decimal names settings later 103 days later-IsAfter (refl, (refl, tt))

abbrev cautious : Settings decimal names
cautious = settings_with Bias.risk_off_bias

risk_off :
    bias_of_day v3_4_1 (latest_row (λ (r : NextStep). r.date) 100 cautious.next_steps)
    ≡ Bias.risk_off_bias
unfolding latest_row bias_of_day
risk_off = refl

risk_off_keeps_core_example :
    let gated = (gate_config decimal names cautious 100 none (account false none)).config in
    (compute_target_weights decimal names 100 none none cautious.universe gated prices).1
    ≡ active_weights decimal names config 100
risk_off_keeps_core_example =
    risk_off_keeps_core decimal names cautious 100 none (account false none) none cautious.universe
      prices refl risk_off
