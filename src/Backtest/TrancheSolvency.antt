-- ===== src/Backtest/TrancheSolvency.antt =====
-- The staged sale and the weekly purchase of src/pretrend/pipeline/backtest/runner.py keep the portfolio
-- solvent.
use pretrend_ai.Base.{ℕ, true, false, Option, none, some, List, ◌≡◌, All}
use pretrend_ai.Base.Float.{FloatOps}
use pretrend_ai.Backtest.Portfolio.{Portfolio}
use pretrend_ai.Backtest.Rebalancer.{Names, Config, Weights}
use pretrend_ai.Backtest.Solvency.{SignLaws, Solvent}
use pretrend_ai.Backtest.TrancheSales.{IsTrancheSale}
use pretrend_ai.Backtest.Tranche.{Traded, execute_weekly_buy}

module _ (fl : FloatOps) (names : Names) where
  open fl use {F, lit, sub, mul, div, lt, le, eq}
  open names use {S, same_symbol, schd}

  -- What a staged sale returns, and then a weekly purchase: neither an IndexError nor a ZeroDivisionError,
  -- only sales of the day, none of a locked SCHD, and no debts after the sales or the purchase.
  unfoldable pub SoldAndBought :
      Config fl names → ℕ → Weights fl names → List (S × F) → ℕ → Option (Traded fl names) → Type 0
  SoldAndBought config day weights prices later none = false ≡ true
  SoldAndBought config day weights prices later (some t) =
      All (IsTrancheSale fl names config day) t.0
      × Solvent fl S t.1
      × Solvent fl S (execute_weekly_buy fl names t.1 weights prices later).1

module _ (fl : FloatOps) (laws : SignLaws fl) (names : Names) where
  open fl use {F, lit, sub, mul, div, lt, le, eq}
  open names use {S, same_symbol, schd}

  abbrev Solves : Traded fl names → Type 0
  Solves t = Solvent fl S t.1
