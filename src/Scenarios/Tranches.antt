-- ===== src/Scenarios/Tranches.antt =====
-- A staged sale of a concrete portfolio, with numbers as symbols: 1 is SPY and 3 is SCHD.
use pretrend_ai.Base.{ℕ, ◌==◌, true, List, [], ◌∷◌}
use pretrend_ai.Base.Float.{decimal}
use pretrend_ai.Backtest.Portfolio.{Portfolio}
use pretrend_ai.Backtest.Rebalancer.{Names, Preset, Config}
use pretrend_ai.Backtest.Tranche.{StagedSellPlan}

abbrev names : Names
names = record {
  S = ℕ;
  same_symbol = λ a b. a == b;
  spy = 1;
  schd = 3;
  G = ℕ;
  same_group = λ a b. a == b;
}

abbrev config : Config decimal names
config = record {
  preset_name = Preset.other_preset;
  tactical_groups = [];
  max_tactical_slots = 0;
  tactical_weight = decimal.lit 0 1;
  initial_weights = (1, decimal.lit 7 1) ∷ (3, decimal.lit 3 1) ∷ [];
  pre_schd_weights = (1, decimal.lit 1 0) ∷ [];
  schd_start_date = 0;
  initial_invested_ratio = decimal.lit 8 1;
  schd_sell_locked = true;
  schd_min_weight = decimal.lit 0 1;
}

abbrev book : Portfolio decimal ℕ
book = record {
  cash = decimal.lit 10 0;
  positions =
      (1, record { shares = decimal.lit 2 0; avg_cost = decimal.lit 40 0 })
      ∷ (3, record { shares = decimal.lit 5 0; avg_cost = decimal.lit 20 0 })
      ∷ [];
}

abbrev plan : StagedSellPlan decimal names
plan = record {
  total_sell_amount = decimal.lit 60 0;
  tranches = decimal.lit 50 2 ∷ decimal.lit 30 2 ∷ decimal.lit 20 2 ∷ [];
  tranche_idx = 1;
  signal_date = 8;
  target_weights = (1, decimal.lit 7 1) ∷ (3, decimal.lit 3 1) ∷ [];
}

abbrev prices : List (ℕ × decimal.F)
prices = (1, decimal.lit 50 0) ∷ (3, decimal.lit 20 0) ∷ []
