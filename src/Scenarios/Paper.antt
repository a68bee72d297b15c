-- ===== src/Scenarios/Paper.antt =====
-- The paper account rebalances while symbol 1 is locked.
use pretrend_ai.Base.{ℕ, ◌==◌, Bool, true, List, [], ◌∷◌, All}
use pretrend_ai.Base.Float.{decimal}
use pretrend_ai.Backtest.Portfolio.{Portfolio}
use pretrend_ai.Paper.Rebalance.{Terms, Holding, run_passes}
use pretrend_ai.Paper.Locks.{IsAllowed, locked_never_sold}

abbrev same : ℕ → ℕ → Bool
same a b = a == b

abbrev book : Portfolio decimal ℕ
book = record {
  cash = decimal.lit 10 0;
  positions = (1, record { shares = decimal.lit 2 0; avg_cost = decimal.lit 40 0 }) ∷ [];
}

abbrev terms : Terms decimal ℕ
terms = record {
  prices = (1, decimal.lit 50 0) ∷ (2, decimal.lit 20 0) ∷ [];
  targets = (1, decimal.lit 20 0) ∷ (2, decimal.lit 60 0) ∷ [];
  locked = 1 ∷ [];
  is_schd = λ s. s == 3;
  schd_min_weight = decimal.lit 0 1;
  nav_for_floor = decimal.lit 0 1;
  day = 8;
}

abbrev held : List (Holding decimal ℕ same)
held = record { symbol = 1; price = decimal.lit 50 0; amount = decimal.lit 100 0 } ∷ []

locked_never_sold_example :
    All
      (IsAllowed decimal ℕ same terms true)
      (run_passes decimal ℕ same terms held true true book).trades
locked_never_sold_example = locked_never_sold decimal ℕ same terms true held true book
