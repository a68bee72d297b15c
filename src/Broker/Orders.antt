-- ===== src/Broker/Orders.antt =====
-- src/pretrend/pipeline/broker/order_manager.py: the loop of `execute_from_ledger_rows` over the rows of the
-- ledger, and the rows of the two frames that it returns.
use pretrend_ai.Base.{
  ℕ, ◌+◌, true, false, ◌&&◌, ◌==◌, leb, Option, none, some, List, [], ◌∷◌, ◌++◌, map, if◌then◌else◌,
}
use pretrend_ai.Base.Int.{pos, pos_part}
use pretrend_ai.Base.Float.{FloatOps, fmax}
use pretrend_ai.Backtest.Portfolio.{Side, bought, sold}
use pretrend_ai.Broker.Trader.{OrderResult, OrderStatus}
use pretrend_ai.Broker.Execute.{
  RowAction, buy_row, sell_row, no_row, ledger_empty, cap_reached, no_budget, order_failed,
  LedgerRow, Progress, Executor, warn, at_world, positive, joined, init_balance_budget, or_zero,
  cap_of, capped,
}

module _ {fl : FloatOps} {OrderId S W : Type 0} (x : Executor fl OrderId S W) where
  open fl use {F, lit, of_int, sub, mul, lt, round, trunc}

  abbrev pub P : Type 0
  P = Progress fl OrderId S W

  -- the cap from the orderable cash
  unfoldable pub cash_cap : S → F → P → Option ℕ × P
  cash_cap sym px p =
      let answer = x.trader.get_orderable_cash_usd sym p.world in
      if lt (lit 0 1) px && x.trader.has_orderable
      then (cap_of x px (positive x (joined x answer.0)), at_world x answer.1 p)
      else (none, p)

  -- or else from the budget
  abbrev pub budget_cap : F → Option ℕ × P → Option ℕ × P
  budget_cap px (some cap, p) = (some cap, p)
  budget_cap px (none, p) =
      let q = init_balance_budget x p in (cap_of x px (positive x q.remaining_budget_usd), q)

  abbrev pub spent : F → ℕ → Option F → Option F
  spent px qty none = none
  spent px qty (some b) =
      if lt (lit 0 1) px
      then some (fmax fl (lit 0 1) (sub b (mul (of_int (pos qty)) px)))
      else some b

  abbrev pub placed : Side → S → Option (OrderResult fl OrderId S) → Option F → P → P
  placed side sym none budget p = warn x (order_failed side sym) p
  placed side sym (some r) budget p = record p {
    results = p.results ++ (r ∷ []);
    count = p.count + 1;
    remaining_budget_usd = budget;
  }

  abbrev pub buy_capped : S → F → ℕ → P → P
  buy_capped sym px qty p =
      let answer = x.trader.place_buy_order sym qty p.world in
      if qty == 0
      then warn x (no_budget sym) p
      else placed bought sym answer.0 (spent px qty p.remaining_budget_usd) (at_world x answer.1 p)

  unfoldable pub execute_buy : S → ℕ → P → P
  unfolding cash_cap init_balance_budget
  execute_buy sym qty p =
      let price = x.trader.get_current_price sym p.world in
      let px = or_zero x price.0 in
      let cap = budget_cap px (cash_cap sym px (at_world x price.1 p)) in
      buy_capped sym px (capped x cap.0 qty) cap.1

  unfoldable pub execute_sell : S → ℕ → P → P
  execute_sell sym qty p =
      let answer = x.trader.place_sell_order sym qty p.world in
      placed sold sym answer.0 p.remaining_budget_usd (at_world x answer.1 p)

  -- `max(0, round(raw_shares * qty_scale_factor))`
  unfoldable pub qty_of : LedgerRow fl S → ℕ
  qty_of row = pos_part (trunc (round (mul (or_zero x row.shares) x.qty_scale_factor) 0))

  abbrev pub execute_side : RowAction → S → ℕ → P → P
  execute_side buy_row sym qty p = execute_buy sym qty p
  execute_side sell_row sym qty p = execute_sell sym qty p
  execute_side no_row sym qty p = p

  unfoldable pub execute_row : LedgerRow fl S → P → P
  unfolding execute_buy execute_sell qty_of
  execute_row row p =
      if x.blank row.symbol
      then p
      else if qty_of row == 0
      then p
      else execute_side row.action row.symbol (qty_of row) p

  unfoldable pub execute_rows : List (LedgerRow fl S) → P → P
  unfolding execute_row
  execute_rows [] p = p
  execute_rows (row ∷ rows) p = elim (leb x.max_orders p.count) [
    | true ↦ warn x cap_reached p
    | false ↦ execute_rows rows (execute_row row p)
  ]

  abbrev pub start : W → P
  start w = record {
    results = [];
    count = 0;
    remaining_budget_usd = none;
    warnings = [];
    world = w;
  }

  unfoldable pub execute_from_ledger_rows : List (LedgerRow fl S) → W → P
  unfolding execute_rows
  execute_from_ledger_rows [] w = warn x ledger_empty (start w)
  execute_from_ledger_rows (row ∷ rows) w = execute_rows (row ∷ rows) (start w)

-- The rows of the orders and of the fills.
module _ (fl : FloatOps) (OrderId S : Type 0) where
  open fl use {F}

  pub record OrderRow : Type 0 where
    pub order_id : OrderId
    pub symbol : S
    pub side : Side
    pub qty : F
    pub status : OrderStatus
    pub requested_price : Option F
    pub filled_price : Option F

  pub record FillRow : Type 0 where
    pub order_id : OrderId
    pub symbol : S
    pub side : Side
    pub filled_qty : F
    pub fill_status : OrderStatus
    pub filled_price : Option F

  abbrev pub to_order_rows : List (OrderResult fl OrderId S) → List OrderRow
  to_order_rows rs =
      map
        (λ r. record {
          order_id = r.order_id;
          symbol = r.symbol;
          side = r.side;
          qty = r.quantity;
          status = r.status;
          requested_price = r.requested_price;
          filled_price = r.filled_price;
        })
        rs

  abbrev pub to_fill_rows : List (OrderResult fl OrderId S) → List FillRow
  to_fill_rows rs =
      map
        (λ r. record {
          order_id = r.order_id;
          symbol = r.symbol;
          side = r.side;
          filled_qty = r.quantity;
          fill_status = r.status;
          filled_price = r.filled_price;
        })
        rs
