-- ===== src/Scenarios/Orders.antt =====
-- Orders, the plan of a broker's day and the client's token at concrete inputs. The world counts the calls.
use pretrend_ai.Base.{
  ℕ, ◌+◌, ◌-◌, ◌≤◌, ◌≡◌, refl, ◌==◌, true, false, none, some, List, [], ◌∷◌, All, length, arith,
}
use pretrend_ai.Base.Int.{◌+ℤ◌, ◌-ℤ◌}
use pretrend_ai.Base.Float.{decimal}
use pretrend_ai.Regime.Labels.{Bias}
use pretrend_ai.Strategy.Allocation.{Action}
use pretrend_ai.Backtest.Portfolio.{bought}
use pretrend_ai.Backtest.Rebalancer.{Names}
use pretrend_ai.Broker.Trader.{Trader, OrderStatus}
use pretrend_ai.Broker.Execute.{LedgerRow, Executor, buy_row, sell_row}
use pretrend_ai.Broker.Orders.{execute_from_ledger_rows}
use pretrend_ai.Broker.OrderSafety.{Placement, traced}
use pretrend_ai.Broker.LedgerOrders.{Among, IsOrderOf, orders_follow_ledger}
use pretrend_ai.Broker.OrderCount.{order_results_capped}
use pretrend_ai.Broker.Planner.{Universe}
use pretrend_ai.Broker.Targets.{Request, is_sale}
use pretrend_ai.Broker.TradingDay.{Month, plan_day, ledger_of, add_months}
use pretrend_ai.Broker.WeekdaySales.{sells_only_on_friday}
use pretrend_ai.Broker.Capital.{add_times, index, months_added}
use pretrend_ai.Broker.Kis.{
  Session, Config, Client, ccnl_response, load_cached_token, save_cached_token,
}
use pretrend_ai.Broker.Kis.Reload.{restarted, reload_saved_token}
use pretrend_ai.Broker.Kis.Retry.{counted, unasked, Sparing, inquiry_requests_at_most_two}

-- a broker that quotes 10, lets 35 be spent, and accepts what it is asked for
abbrev trader : Trader decimal ℕ ℕ ℕ
trader = record {
  has_rate = true;
  has_orderable = true;
  get_balance = λ w. (none, w + 1);
  get_positions = λ w. (none, w + 1);
  get_current_price = λ s w. (some (decimal.lit 10 0), w + 1);
  get_usdkrw_rate = λ w. (none, w + 1);
  get_orderable_cash_usd = λ s w. (some (some (decimal.lit 35 0)), w + 1);
  place_buy_order = λ s q w. (
    some (record {
      order_id = w;
      symbol = s;
      side = bought;
      quantity = decimal.lit q 0;
      requested_price = none;
      filled_price = none;
      status = OrderStatus.accepted_order;
    }),
    w + 1,
  );
  place_sell_order = λ s q w. (none, w + 1);
}

abbrev executor : Executor decimal ℕ ℕ ℕ
executor = record {
  trader = trader;
  blank = λ s. s == 0;
  max_orders = 20;
  qty_scale_factor = decimal.lit 10 1;
  max_ratio = some (decimal.lit 10 1);
}

abbrev rows : List (LedgerRow decimal ℕ)
rows =
    record { action = buy_row; symbol = 1; shares = some (decimal.lit 5 0) }
    ∷ record { action = sell_row; symbol = 2; shares = some (decimal.lit 3 0) }
    ∷ []

orders_follow_ledger_example :
    All
      (λ (p : Placement ℕ). Among (λ row. IsOrderOf executor row p) rows)
      (execute_from_ledger_rows (traced executor) rows (0, [])).world.1
orders_follow_ledger_example = orders_follow_ledger executor rows 0

order_results_capped_example :
    let out = execute_from_ledger_rows executor rows 0 in
    (out.count ≡ length out.results) × (length out.results ≤ 20)
order_results_capped_example = order_results_capped executor rows 0

abbrev names : Names
names = record {
  S = ℕ;
  same_symbol = λ a b. a == b;
  spy = 1;
  schd = 2;
  G = ℕ;
  same_group = λ a b. a == b;
}

abbrev universe : Universe decimal names
universe = record { iau = 3; tactical_groups = 1 ∷ [] }

abbrev request : Request decimal names
request = record {
  action = Action.increase;
  next_invested_ratio = decimal.lit 80 2;
  what_to_hold = [];
  broker_nav_usd = decimal.lit 1000 0;
  broker_positions = (1, decimal.lit 90 0) ∷ [];
  live_prices = (1, some (decimal.lit 10 0)) ∷ (2, some (decimal.lit 10 0)) ∷ [];
  effective_bias = Bias.neutral_bias;
  allow_sell = true;
  lock_sell_symbols = [];
  schd_min_weight = decimal.lit 20 2;
}

sells_only_on_friday_example :
    let day = plan_day decimal names universe 1 false request (decimal.lit 90 2) none in
    All
      (λ (p : Placement ℕ). is_sale decimal names p.side ≡ false)
      (execute_from_ledger_rows (traced executor) (ledger_of decimal names day) (0, [])).world.1
sells_only_on_friday_example =
    sells_only_on_friday decimal names executor universe 1 false request (decimal.lit 90 2) none 0
      refl

abbrev november : Month
november = record { year = 2025; month = 11 }

abbrev february : Month
february = record { year = 2026; month = 2 }

months_added_example :
    add_months decimal 10 november february (decimal.lit 3 0) (decimal.lit 10 0)
    ≡ some (
        add_times decimal
          (index february + 1 - index november)
          (decimal.lit 3 0)
          (decimal.lit 10 0))
months_added_example =
    months_added decimal 10 november february (decimal.lit 3 0) (decimal.lit 10 0) (omega arith)
      (omega arith) (omega arith)

-- a service that refuses the first request
abbrev session : Session decimal ℕ ℕ ℕ
session = record {
  time = λ w. (decimal.lit 1000 0, w + 1);
  post_token = λ w. (some (record { access_token = 7; expires_in = decimal.lit 3600 0 }), w + 1);
  request = λ a w. (some (record { status_code = 401; body = a }), w + 1);
}

abbrev client : Config decimal ℕ ℕ ℕ ℕ
client = record {
  session = session;
  dry_run = false;
  dry_run_token = 1;
  app_key = 5;
  same_key = λ a b. a == b;
  blank = λ a. a == 0;
  can_write = true;
}

abbrev holder : Client decimal ℕ ℕ ℕ
holder = record {
  token = record { access_token = some 7; expires_at_epoch = decimal.lit 4600 0 };
  refresh_count = 1;
  last_auth_error = none;
  cache = none;
  world = 0;
}

in_time : decimal.lt (decimal.lit 1000 0) (decimal.lit 4600 0) ≡ true
unfolding ◌+ℤ◌ ◌-ℤ◌
in_time = refl

reload_saved_token_example :
    (load_cached_token client (restarted client (save_cached_token client holder))).token
    ≡ holder.token
reload_saved_token_example = reload_saved_token client holder 7 refl refl refl refl in_time

inquiry_requests_at_most_two_example :
    Sparing client client.dry_run
      (ccnl_response (counted client) (
        unasked client
          (record { access_token = none; expires_at_epoch = decimal.lit 0 1 })
          none
          0
          none
          0)).1.world
inquiry_requests_at_most_two_example =
    inquiry_requests_at_most_two client
      (record { access_token = none; expires_at_epoch = decimal.lit 0 1 }) none 0 none 0
