-- ===== src/Paper/Simulation/Weekdays.antt =====
-- On which days the simulated account trades.
use pretrend_ai.Base.{
  ℕ, ◌+◌, Bool, true, false, ◌≡◌, Option, none, some, List, [], ◌∷◌, All, append-All, All-mono,
  Bool-cases, inl, inr, arith,
}
use pretrend_ai.Base.Float.{FloatOps}
use pretrend_ai.Backtest.Portfolio.{Trade}
use pretrend_ai.Backtest.Rebalancer.{Names, PolicyRow, is_first_of_month}
use pretrend_ai.Paper.Locks.{is_sale}
use pretrend_ai.Paper.Simulation.{Settings, Exposure, Account, Prices, LedgerRow}
use pretrend_ai.Paper.Simulation.Day.{Trading, Gated, targets_of_day}
use pretrend_ai.Paper.Simulation.Close.{record_trade_rows}
use pretrend_ai.Paper.Simulation.DayTrades.{is_proper, IsProper, AllProper, trade_day-Proper}
use pretrend_ai.Paper.Simulation.Run.{
  turn, deposit, start, simulate_paper_execution, close_day, closed, policy_at, gated_of,
  trading_of, trading_with, action_effective,
}
use pretrend_ai.Paper.Simulation.Invariant.{IfSome, run-keeps}

module _ (fl : FloatOps) (names : Names) (settings : Settings fl names) where
  open names use {S, same_symbol, schd}

  rows-Proper :
      (paused : Bool) (i : ℕ) (ts : List (Trade fl S))
      → All (IsProper fl names settings paused) ts
      → All
          (λ (row : LedgerRow fl names). IsProper fl names settings false row.trade)
          (record_trade_rows fl names i ts)
  unfolding record_trade_rows
  rows-Proper paused i [] h = tt
  rows-Proper paused i (t ∷ ts) h =
      let first : is_proper fl names settings paused t ≡ true = h.0 in
      (ground arith, rows-Proper paused (i + 1) ts h.1)

  -- Each row of the account's ledger is proper.
  unfoldable pub LedgerIsProper : Account fl names → Type 0
  LedgerIsProper a =
      All (λ (row : LedgerRow fl names). is_proper fl names settings false row.trade ≡ true)
        a.ledger_rows

  closed-Proper :
      (td : ℕ) (prices : Prices fl names) (policy : Option PolicyRow) (gated : Gated fl names)
      (a : Account fl names) (o : Option (Trading fl names)) (paused : Bool)
      → LedgerIsProper a
      → AllProper fl names settings paused o
      → IfSome LedgerIsProper (closed fl names settings td prices policy gated a o)
  unfolding AllProper LedgerIsProper close_day
  closed-Proper td prices policy gated a none paused h k = tt
  closed-Proper td prices policy gated a (some t) paused h k =
      append-All (λ (row : LedgerRow fl names). IsProper fl names settings false row.trade)
        a.ledger_rows _ h (rows-Proper paused 0 t.trades k)

  deposit-Proper :
      (td : ℕ) (a : Account fl names)
      → LedgerIsProper a
      → LedgerIsProper (deposit fl names settings td a)
  unfolding deposit LedgerIsProper
  deposit-Proper td a h =
      elim (Bool-cases (is_first_of_month fl names settings.month td a.prev_day)) [
        | inl e ↦ rw e h
        | inr e ↦ rw e h
      ]

  trading-Proper :
      (row : Exposure fl names) (prices : Prices fl names) (a : Account fl names)
      → AllProper fl names settings a.guard.paused (trading_of fl names settings row prices a)
  unfolding trading_of trading_with
  trading-Proper row prices a =
      let td = row.trade_date in
      let config = (gated_of fl names settings td a).config in
      let target =
        targets_of_day fl names settings row (policy_at fl names settings td) config prices in
      trade_day-Proper fl names settings prices target.0 target.1 td
        (action_effective fl names settings row prices a.book) a.guard.paused a.staged_sell a.book

  turn-Proper :
      (row : Exposure fl names) (prices : Prices fl names) (a : Account fl names)
      → LedgerIsProper a
      → IfSome LedgerIsProper
          (turn fl names settings row prices (deposit fl names settings row.trade_date a))
  unfolding turn
  turn-Proper row prices a h =
      let b = deposit fl names settings row.trade_date a in
      closed-Proper row.trade_date prices (policy_at fl names settings row.trade_date)
        (gated_of fl names settings row.trade_date b) b (trading_of fl names settings row prices b)
        b.guard.paused (deposit-Proper row.trade_date a h) (trading-Proper row prices b)

  -- Each row of the ledger of a simulation is a purchase on a Tuesday or a sale on a Friday, and no sale
  -- is one of SCHD when its sale is locked.
  pub trades_only_on_their_days :
      (exposures : List (Exposure fl names))
      → IfSome LedgerIsProper (simulate_paper_execution fl names settings exposures)
  unfolding simulate_paper_execution
  trades_only_on_their_days exposures =
      run-keeps settings LedgerIsProper turn-Proper exposures (start fl names settings)
        (unfold LedgerIsProper start in tt)

  unfoldable pub SalesOnly : Option (Trading fl names) → Type 0
  SalesOnly none = Unit
  SalesOnly (some t) = All (λ (u : Trade fl S). is_sale u.action ≡ true) t.trades

  proper_sales :
      (o : Option (Trading fl names)) (paused : Bool)
      → paused ≡ true
      → AllProper fl names settings paused o
      → SalesOnly o
  unfolding AllProper SalesOnly
  proper_sales none paused e h = tt
  proper_sales (some t) paused e h =
      All-mono (IsProper fl names settings paused) (λ (u : Trade fl S). is_sale u.action ≡ true)
        (λ u k. ground arith) t.trades h

  -- On the day of a paused account all trades are sales.
  pub paused_buys_nothing :
      (row : Exposure fl names) (prices : Prices fl names) (a : Account fl names)
      → a.guard.paused ≡ true
      → SalesOnly (trading_of fl names settings row prices a)
  paused_buys_nothing row prices a e =
      proper_sales (trading_of fl names settings row prices a) a.guard.paused e
        (trading-Proper row prices a)
