-- ===== src/Scenarios/Backtest.antt =====
-- A rebalancing of a concrete portfolio, with numbers as symbols: 1 is held and leaves, 2 is bought.
use pretrend_ai.Base.{ℕ, refl, ◌==◌, List, [], ◌∷◌}
use pretrend_ai.Base.Float.{decimal}
use pretrend_ai.Base.Int.{◌+ℤ◌, ◌-ℤ◌}
use pretrend_ai.Backtest.Portfolio.{Portfolio}
use pretrend_ai.Backtest.Rebalance.{rebalance_to_weights}
use pretrend_ai.Backtest.Solvency.{Solvent, rebalance_to_weights-Solvent}
use pretrend_ai.Backtest.DecimalSigns.{decimal-SignLaws}
use pretrend_ai.Backtest.TradeOrder.{SalesFirst, rebalance_sells_first}

abbrev book : Portfolio decimal ℕ
book = record {
  cash = decimal.lit 10 0;
  positions = (1, record { shares = decimal.lit 2 0; avg_cost = decimal.lit 40 0 }) ∷ [];
}

abbrev weights : List (ℕ × decimal.F)
weights = (2, decimal.lit 10 1) ∷ []

abbrev prices : List (ℕ × decimal.F)
prices = (1, decimal.lit 50 0) ∷ (2, decimal.lit 20 0) ∷ []

rebalance_to_weights-Solvent_example :
    Solvent decimal ℕ
      (rebalance_to_weights decimal ℕ (λ a b. a == b) weights prices (decimal.lit 90 0) 8 [] book).1
unfolding Solvent ◌+ℤ◌ ◌-ℤ◌
rebalance_to_weights-Solvent_example =
    rebalance_to_weights-Solvent decimal decimal-SignLaws ℕ (λ a b. a == b) weights prices
      (decimal.lit 90 0) 8 [] book (refl, ((refl, refl), tt))

rebalance_sells_first_example :
    SalesFirst decimal ℕ
      (λ a b. a == b)
      8
      (rebalance_to_weights decimal ℕ (λ a b. a == b) weights prices (decimal.lit 90 0) 8 [] book).0
rebalance_sells_first_example =
    rebalance_sells_first decimal ℕ (λ a b. a == b) weights prices (decimal.lit 90 0) 8 [] book
