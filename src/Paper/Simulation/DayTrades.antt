-- ===== src/Paper/Simulation/DayTrades.antt =====
-- What each day of the simulated account may trade.
use pretrend_ai.Base.{
  ℕ, Bool, true, false, ◌≡◌, refl, ◌&&◌, not, Option, none, some, All, if_cases, if◌then◌else◌,
  arith, any,
}
use pretrend_ai.Base.Float.{FloatOps}
use pretrend_ai.Strategy.Allocation.{Action}
use pretrend_ai.Backtest.Portfolio.{Portfolio, Trade, total_value}
use pretrend_ai.Backtest.Rebalancer.{Names, Weights}
use pretrend_ai.Paper.Rebalance.{Outcome}
use pretrend_ai.Paper.Trades.{rebalance-All}
use pretrend_ai.Paper.Locks.{is_sale}
use pretrend_ai.Paper.Simulation.{is_monday, is_tuesday, is_friday, Settings, StagedSell, Prices}
use pretrend_ai.Paper.Simulation.Day.{
  Trading, idle, traded, rebalance_day, trade_day, plan_of_friday, sell_tranche, follow_plan,
  is_increase, is_decrease, nth, lock_symbols,
}

module _ (fl : FloatOps) (names : Names) (settings : Settings fl names) where
  open names use {S, same_symbol, schd}

  -- A purchase on a Tuesday of an account that is not paused, or a sale on a Friday of a symbol that is
  -- not the locked one.
  abbrev pub is_proper : Bool → Trade fl S → Bool
  is_proper paused t =
      if is_sale t.action
      then is_friday t.trade_date && not (settings.schd_sell_locked && same_symbol schd t.symbol)
      else is_tuesday t.trade_date && not paused

  abbrev pub IsProper : Bool → Trade fl S → Type 0
  IsProper paused t = is_proper paused t ≡ true

  unfoldable pub AllProper : Bool → Option (Trading fl names) → Type 0
  AllProper paused none = Unit
  AllProper paused (some t) = All (IsProper paused) t.trades

  unlocked :
      (locked : Bool) (sym : S)
      → any (λ l. same_symbol l sym) (lock_symbols fl names locked) ≡ false
      → (locked && same_symbol schd sym) ≡ false
  unlocked true sym h = ground arith
  unlocked false sym h = refl

  sales-Proper :
      (prices : Prices fl names) (ratio : fl.F) (weights : Weights fl names) (td : ℕ)
      (book : Portfolio fl S) (paused : Bool)
      → is_friday td ≡ true
      → All
          (IsProper paused)
          (rebalance_day fl names settings prices ratio weights td true false book).trades
  unfolding rebalance_day
  sales-Proper prices ratio weights td book paused f =
      rebalance-All fl S same_symbol td (lock_symbols fl names settings.schd_sell_locked) true false
        (IsProper paused)
        (λ a sym l shares price amount. rw (f, unlocked settings.schd_sell_locked sym l) refl)
        (λ b sym shares price amount. ground arith) prices ratio weights (λ s. same_symbol s schd)
        settings.schd_min_weight (total_value fl S same_symbol book prices) book

  purchases-Proper :
      (prices : Prices fl names) (ratio : fl.F) (weights : Weights fl names) (td : ℕ)
      (book : Portfolio fl S)
      → is_tuesday td ≡ true
      → All
          (IsProper false)
          (rebalance_day fl names settings prices ratio weights td false true book).trades
  unfolding rebalance_day
  purchases-Proper prices ratio weights td book f =
      rebalance-All fl S same_symbol td (lock_symbols fl names settings.schd_sell_locked) false true
        (IsProper false) (λ a sym l shares price amount. ground arith)
        (λ b sym shares price amount. ground arith) prices ratio weights (λ s. same_symbol s schd)
        settings.schd_min_weight (total_value fl S same_symbol book prices) book

  traded-Proper :
      (paused : Bool) (plan : Option (StagedSell fl names)) (out : Outcome fl S)
      → All (IsProper paused) out.trades
      → AllProper paused (traded fl names plan out)
  unfolding AllProper
  traded-Proper paused plan out h = if_cases (AllProper paused) out.failed none _ (λ e. tt) (λ e. h)

  idle-Proper :
      (paused : Bool) (book : Portfolio fl S) (plan : Option (StagedSell fl names))
      → AllProper paused (idle fl names book plan)
  unfolding AllProper
  idle-Proper paused book plan = tt

  tranche-Proper :
      (paused : Bool) (prices : Prices fl names) (weights : Weights fl names) (td : ℕ)
      (book : Portfolio fl S) (plan : StagedSell fl names) (tranche : Option fl.F)
      → is_friday td ≡ true
      → AllProper paused (sell_tranche fl names settings prices weights td book plan tranche)
  tranche-Proper paused prices weights td book plan none f = idle-Proper paused book (some plan)
  tranche-Proper paused prices weights td book plan (some tranche) f =
      traded-Proper paused _ _ (sales-Proper prices _ weights td book paused f)

  plan-Proper :
      (paused : Bool) (prices : Prices fl names) (weights : Weights fl names) (td : ℕ)
      (book : Portfolio fl S) (plan : Option (StagedSell fl names))
      → is_friday td ≡ true
      → AllProper paused (follow_plan fl names settings prices weights td book plan)
  plan-Proper paused prices weights td book none f = idle-Proper paused book none
  plan-Proper paused prices weights td book (some plan) f =
      tranche-Proper paused prices weights td book plan
        (nth fl names plan.tranches plan.tranche_idx) f

  tuesday-Proper :
      (paused : Bool) (plan : Option (StagedSell fl names)) (out : Outcome fl S)
      → paused ≡ false
      → All (IsProper false) out.trades
      → AllProper paused (traded fl names plan out)
  tuesday-Proper true plan out e h = absurd (ground arith)
  tuesday-Proper false plan out e h = traded-Proper false plan out h

  pub trade_day-Proper :
      (prices : Prices fl names) (ratio : fl.F) (weights : Weights fl names) (td : ℕ)
      (action : Action) (paused : Bool) (plan : Option (StagedSell fl names))
      (book : Portfolio fl S)
      → AllProper paused
          (trade_day fl names settings prices (ratio, weights) td action paused plan book)
  unfolding trade_day
  trade_day-Proper prices ratio weights td action paused plan book =
      if_cases (AllProper paused) (is_monday td) _ _ (λ e. idle-Proper paused book _)
        (λ e.
          if_cases (AllProper paused) (is_tuesday td && (is_increase action && not paused)) _ _
            (λ t.
              tuesday-Proper paused plan _ (ground arith)
                (purchases-Proper prices ratio weights td book (ground arith)))
            (λ t.
              if_cases (AllProper paused) (is_friday td) _ _
                (λ f.
                  if_cases (AllProper paused) (is_decrease action) _ _
                    (λ d.
                      plan-Proper paused prices weights td book
                        (plan_of_friday fl names settings prices ratio book plan) f)
                    (λ d. idle-Proper paused book none))
                (λ f. idle-Proper paused book plan)))
