-- ===== src/Paper/Locks.antt =====
-- Which symbols the rebalancing of the paper account sells.
use pretrend_ai.Base.{Bool, true, false, ◌≡◌, refl, ◌&&◌, ◌||◌, not, List, All, arith}
use pretrend_ai.Base.Float.{FloatOps}
use pretrend_ai.Backtest.Portfolio.{Portfolio, Trade, Side, bought, sold}
use pretrend_ai.Paper.Rebalance.{Terms, Holding, is_locked, run_passes}
use pretrend_ai.Paper.Trades.{run_passes-All}

abbrev pub is_sale : Side → Bool
is_sale sold = true
is_sale bought = false

module _ (fl : FloatOps) (S : Type 0) (eqb : S → S → Bool) (terms : Terms fl S)
    (allow_sell : Bool) where
  -- Not a sale of a locked symbol, and no sale at all where sales are not allowed.
  abbrev pub IsAllowed : Trade fl S → Type 0
  IsAllowed t = (is_sale t.action && (is_locked fl S eqb terms t.symbol || not allow_sell)) ≡ false

  -- Whatever the prices and the targets, also where a missing price stops it, the rebalancing never sells
  -- a locked symbol, and sells nothing where sales are not allowed.
  pub locked_never_sold :
      (held : List (Holding fl S eqb)) (allow_buy : Bool) (p : Portfolio fl S)
      → All IsAllowed (run_passes fl S eqb terms held allow_sell allow_buy p).trades
  locked_never_sold held allow_buy p =
      run_passes-All fl S eqb terms allow_sell allow_buy IsAllowed
        (λ a sym l shares price amount. ground arith) (λ a sym shares price amount. refl) held p
