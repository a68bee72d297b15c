-- ===== src/Paper/Simulation/Run.antt =====
-- src/pretrend/pipeline/paper/execution.py: one turn of the loop of `simulate_paper_execution` and the whole
-- simulation. Two turns with an equal date do not occur.
use pretrend_ai.Base.{ℕ, false, Option, none, some, List, [], ◌∷◌, ◌++◌, if◌then◌else◌}
use pretrend_ai.Base.Float.{FloatOps}
use pretrend_ai.Base.AsOf.{latest_row}
use pretrend_ai.Strategy.Allocation.{Action}
use pretrend_ai.Backtest.Portfolio.{Portfolio, invested_ratio, add_cash}
use pretrend_ai.Backtest.Rebalancer.{Names, Config, PolicyRow, is_first_of_month}
use pretrend_ai.Paper.Simulation.{Settings, Exposure, Account, Prices, as_prices}
use pretrend_ai.Paper.Simulation.Day.{
  Gated, Trading, short_of, becomes, gate_config, targets_of_day, trade_day,
}
use pretrend_ai.Paper.Simulation.Close.{
  update_guard, record_trade_rows, rounded_total, rounded_invested, position_rows, portfolio_row,
}

module _ (fl : FloatOps) (names : Names) where
  open fl use {F, lit, add, lt}
  open names use {S, same_symbol}

  -- the monthly addition, to the book and to the capital
  unfoldable pub deposit : Settings fl names → ℕ → Account fl names → Account fl names
  unfolding add_cash
  deposit settings td a =
      if is_first_of_month fl names settings.month td a.prev_day
      then record a {
        book = add_cash fl S same_symbol settings.monthly_addition a.book;
        total_invested_capital = add a.total_invested_capital settings.monthly_addition;
      }
      else a

  -- a ratio above the cap forces a reduction
  unfoldable pub action_effective :
      Settings fl names → Exposure fl names → Prices fl names → Portfolio fl S → Action
  unfolding invested_ratio
  action_effective settings row prices book =
      becomes
        (lt (add settings.max_invested_ratio (lit 1 9))
          (invested_ratio fl S same_symbol book prices))
        row.action

  unfoldable pub close_day :
      Settings fl names
      → ℕ
      → Prices fl names
      → Option PolicyRow
      → Gated fl names
      → Account fl names
      → Trading fl names
      → Account fl names
  unfolding update_guard record_trade_rows position_rows portfolio_row
  close_day settings td prices policy gated a t =
      let nav = rounded_total fl names t.book prices in
      let guard = update_guard fl names nav a.total_invested_capital (short_of policy) td a.guard in
      let rows =
        position_rows fl names td (rounded_invested fl names t.book prices) t.book.positions
          prices in
      record {
        book = t.book;
        total_invested_capital = a.total_invested_capital;
        staged_sell = t.staged_sell;
        prev_day = some td;
        prev_nav = some nav;
        relief_streak = gated.relief_streak;
        group_gate_active = gated.group_gate_active;
        guard = guard;
        ledger_rows = a.ledger_rows ++ record_trade_rows fl names 0 t.trades;
        pos_rows = a.pos_rows ++ rows;
        pf_rows =
            a.pf_rows
            ++ (portfolio_row fl names td t.book prices a.total_invested_capital a.prev_nav guard
                ∷ []);
      }

  abbrev pub closed :
      Settings fl names
      → ℕ
      → Prices fl names
      → Option PolicyRow
      → Gated fl names
      → Account fl names
      → Option (Trading fl names)
      → Option (Account fl names)
  closed settings td prices policy gated a none = none
  closed settings td prices policy gated a (some t) =
      some (close_day settings td prices policy gated a t)

  abbrev pub policy_at : Settings fl names → ℕ → Option PolicyRow
  policy_at settings td = latest_row (λ (r : PolicyRow). r.date) td settings.policy_rows

  unfoldable pub gated_of : Settings fl names → ℕ → Account fl names → Gated fl names
  unfolding gate_config latest_row
  gated_of settings td a = gate_config fl names settings td (policy_at settings td) a

  unfoldable pub trading_with :
      Settings fl names
      → Exposure fl names
      → Prices fl names
      → Option PolicyRow
      → Config fl names
      → Account fl names
      → Option (Trading fl names)
  unfolding targets_of_day trade_day action_effective
  trading_with settings row prices policy config a =
      trade_day fl names settings prices (targets_of_day fl names settings row policy config prices)
        row.trade_date (action_effective settings row prices a.book) a.guard.paused a.staged_sell
        a.book

  unfoldable pub trading_of :
      Settings fl names
      → Exposure fl names
      → Prices fl names
      → Account fl names
      → Option (Trading fl names)
  unfolding latest_row gated_of trading_with
  trading_of settings row prices a =
      trading_with settings row prices (policy_at settings row.trade_date)
        (gated_of settings row.trade_date a).config a

  -- a day with prices, on the account after the deposit
  unfoldable pub turn :
      Settings fl names
      → Exposure fl names
      → Prices fl names
      → Account fl names
      → Option (Account fl names)
  unfolding latest_row gated_of trading_of close_day
  turn settings row prices a =
      let td = row.trade_date in
      closed settings td prices (policy_at settings td) (gated_of settings td a) a
        (trading_of settings row prices a)

  -- a day without prices is passed over
  unfoldable pub step :
      Settings fl names → Exposure fl names → Account fl names → Option (Account fl names)
  unfolding as_prices deposit turn
  step settings row a = elim (as_prices fl names settings.price_rows row.trade_date) [
    | [] ↦ some a
    | p ∷ ps ↦ turn settings row (p ∷ ps) (deposit settings row.trade_date a)
  ]

  abbrev pub and_then :
      Option (Account fl names)
      → (Account fl names → Option (Account fl names))
      → Option (Account fl names)
  and_then none f = none
  and_then (some a) f = f a

  unfoldable pub run :
      Settings fl names → List (Exposure fl names) → Account fl names → Option (Account fl names)
  unfolding step
  run settings [] a = some a
  run settings (row ∷ rows) a = and_then (step settings row a) (run settings rows)

  unfoldable pub start : Settings fl names → Account fl names
  start settings = record {
    book = record { cash = settings.initial_capital; positions = [] };
    total_invested_capital = settings.initial_capital;
    staged_sell = none;
    prev_day = none;
    prev_nav = none;
    relief_streak = 0;
    group_gate_active = false;
    guard = record {
      peak_nav = settings.initial_capital;
      paused = false;
      paused_since = none;
      panic_streak = 0;
    };
    ledger_rows = [];
    pos_rows = [];
    pf_rows = [];
  }

  unfoldable pub simulate_paper_execution :
      Settings fl names → List (Exposure fl names) → Option (Account fl names)
  unfolding run start
  simulate_paper_execution settings exposures = run settings exposures (start settings)
