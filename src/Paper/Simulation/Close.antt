-- ===== src/Paper/Simulation/Close.antt =====
-- src/pretrend/pipeline/paper/execution.py, the end of the loop of `simulate_paper_execution`: the guardrail
-- and the rows that a day writes.
use pretrend_ai.Base.{
  ℕ, ◌+◌, Bool, true, false, ◌&&◌, ◌||◌, Option, none, some, List, [], ◌∷◌, if◌then◌else◌,
}
use pretrend_ai.Base.Float.{FloatOps, fmax, fneg}
use pretrend_ai.Base.Dict.{get}
use pretrend_ai.Regime.Labels.{ShortSignal}
use pretrend_ai.Backtest.Portfolio.{
  Position, Portfolio, Trade, market_value, invested_value, total_value,
}
use pretrend_ai.Backtest.Rebalancer.{Names}
use pretrend_ai.Paper.Simulation.{Guard, LedgerRow, PortfolioRow, PositionRow, Prices}

abbrev pub next_panic : ShortSignal → ℕ → ℕ
next_panic ShortSignal.panic streak = streak + 1
next_panic _ streak = 0

-- the pause, and the day it began, after a day with a breach or a recovery
abbrev pub paused_after : Bool → Bool → Bool → Bool
paused_after breach recovery paused =
    if breach then true else if paused && recovery then false else paused

abbrev pub since_after : Bool → Bool → Bool → ℕ → Option ℕ → Option ℕ
since_after breach recovery paused td since =
    if breach
    then (if paused then since else some td)
    else if paused && recovery
    then none
    else since

module _ (fl : FloatOps) (names : Names) where
  open fl use {F, lit, sub, div, lt, le, eq, round}
  open names use {S, same_symbol}

  -- The ratios of the guardrail.
  abbrev pub peak_dd : F → F → F
  peak_dd nav peak = if lt (lit 0 1) peak then div (sub nav peak) peak else lit 0 1

  abbrev pub nav_tc_ratio : F → F → F
  nav_tc_ratio nav capital = if lt (lit 0 0) capital then div nav capital else lit 10 1

  abbrev pub nav_breach : F → F → Bool
  nav_breach nav capital = lt (nav_tc_ratio nav capital) (lit 85 2)

  abbrev pub peak_breach : F → F → Bool
  peak_breach nav peak = lt (peak_dd nav peak) (fneg fl (lit 20 2))

  abbrev pub recovered : F → F → F → Bool
  recovered nav capital peak =
      le (lit 90 2) (nav_tc_ratio nav capital) && le (fneg fl (lit 15 2)) (peak_dd nav peak)

  unfoldable pub update_guard : F → F → ShortSignal → ℕ → Guard fl names → Guard fl names
  update_guard nav capital short td g =
      let peak = fmax fl g.peak_nav nav in
      let breach = nav_breach nav capital || peak_breach nav peak in
      let recovery = recovered nav capital peak in
      record {
        peak_nav = peak;
        paused = paused_after breach recovery g.paused;
        paused_since = since_after breach recovery g.paused td g.paused_since;
        panic_streak = next_panic short g.panic_streak;
      }

  unfoldable pub record_trade_rows : ℕ → List (Trade fl S) → List (LedgerRow fl names)
  record_trade_rows i [] = []
  record_trade_rows i (t ∷ ts) =
      record { trade = t; sequence_id = i } ∷ record_trade_rows (i + 1) ts

  abbrev pub pnl_of : F → Option F → Option F
  pnl_of nav none = none
  pnl_of nav (some prev) = if eq prev (lit 0 1) then none else some (sub (div nav prev) (lit 10 1))

  abbrev pub rounded_total : Portfolio fl S → Prices fl names → F
  rounded_total book prices = round (total_value fl S same_symbol book prices) 2

  abbrev pub rounded_invested : Portfolio fl S → Prices fl names → F
  rounded_invested book prices = round (invested_value fl S same_symbol book prices) 2

  abbrev pub position_row : ℕ → F → S → F → F → F → F → PositionRow fl names
  position_row td invested sym shares avg_cost price value = record {
    trade_date = td;
    symbol = sym;
    shares = shares;
    avg_cost = avg_cost;
    eod_price = price;
    market_value = value;
    gain_pct =
        if lt (lit 0 0) shares && lt (lit 0 0) avg_cost
        then some (sub (div price avg_cost) (lit 10 1))
        else none;
    weight = if lt (lit 0 0) invested then div value invested else lit 0 1;
  }

  abbrev pub with_row :
      ℕ → F → S → Position fl → Option F → List (PositionRow fl names) → List (PositionRow fl names)
  with_row td invested sym p none rest = rest
  with_row td invested sym p (some price) rest =
      if lt (lit 0 0) p.shares
      then position_row td invested sym (round p.shares 6) (round p.avg_cost 4) price
          (round (market_value fl S same_symbol p price) 2)
        ∷ rest
      else rest

  -- `Portfolio.snapshot`'s positions, as rows
  unfoldable pub position_rows :
      ℕ → F → List (S × Position fl) → Prices fl names → List (PositionRow fl names)
  position_rows td invested [] prices = []
  position_rows td invested ((sym, p) ∷ rest) prices =
      with_row td invested sym p (get same_symbol sym prices)
        (position_rows td invested rest prices)

  unfoldable pub portfolio_row :
      ℕ → Portfolio fl S → Prices fl names → F → Option F → Guard fl names → PortfolioRow fl names
  unfolding total_value invested_value
  portfolio_row td book prices capital prev_nav g =
      let nav = rounded_total book prices in
      record {
        trade_date = td;
        cash = round book.cash 2;
        invested_value = rounded_invested book prices;
        nav = nav;
        total_invested_capital = capital;
        daily_pnl = pnl_of nav prev_nav;
        cumulative_pnl =
            if lt (lit 0 0) capital then some (div (sub nav capital) capital) else none;
        nav_breach = nav_breach nav capital;
        peak_dd_breach = peak_breach nav g.peak_nav;
        guard = g;
      }
