-- ===== src/Broker/OrderSafety.antt =====
-- Which orders are placed for the rows of a ledger: the calls, recorded in the world of the adapter.
use pretrend_ai.Base.{
  ℕ, ◌≤◌, ◌<◌, Bool, true, false, ◌&&◌, ◌==◌, leb, Option, none, some, List, [], ◌∷◌, All, if_cases,
  arith,
}
use pretrend_ai.Base.Float.{FloatOps}
use pretrend_ai.Backtest.Portfolio.{Side, bought, sold}
use pretrend_ai.Broker.Trader.{BrokerBalance, OrderResult}
use pretrend_ai.Broker.Execute.{
  RowAction, buy_row, sell_row, no_row, LedgerRow, Progress, Executor, warn, at_world, positive,
  joined, init_balance_budget, with_rate, known_rate, with_balance, unless_known, cap_reached,
  or_zero, capped,
}
use pretrend_ai.Broker.Orders.{
  cash_cap, budget_cap, spent, placed, buy_capped, execute_buy, execute_sell, qty_of, execute_side,
  execute_row, execute_rows, start, execute_from_ledger_rows,
}

pub record Placement (S : Type 0) : Type 0 where
  pub side : Side
  pub symbol : S
  pub qty : ℕ

abbrev pub placement : {S : Type 0} → Side → S → ℕ → Placement S
placement side sym qty = record { side = side; symbol = sym; qty = qty }

module _ {fl : FloatOps} {OrderId S W : Type 0} where
  -- The executor whose adapter also writes down each order that is placed, the latest first.
  abbrev pub traced : Executor fl OrderId S W → Executor fl OrderId S (W × List (Placement S))
  traced x = record {
    blank = x.blank;
    max_orders = x.max_orders;
    qty_scale_factor = x.qty_scale_factor;
    max_ratio = x.max_ratio;
    trader = record {
      has_rate = x.trader.has_rate;
      has_orderable = x.trader.has_orderable;
      get_balance = λ w. let r = x.trader.get_balance w.0 in (r.0, (r.1, w.1));
      get_positions = λ w. let r = x.trader.get_positions w.0 in (r.0, (r.1, w.1));
      get_current_price = λ s w. let r = x.trader.get_current_price s w.0 in (r.0, (r.1, w.1));
      get_usdkrw_rate = λ w. let r = x.trader.get_usdkrw_rate w.0 in (r.0, (r.1, w.1));
      get_orderable_cash_usd =
          λ s w. let r = x.trader.get_orderable_cash_usd s w.0 in (r.0, (r.1, w.1));
      place_buy_order = λ s q w.
          let r = x.trader.place_buy_order s q w.0 in (r.0, (r.1, placement bought s q ∷ w.1));
      place_sell_order = λ s q w.
          let r = x.trader.place_sell_order s q w.0 in (r.0, (r.1, placement sold s q ∷ w.1));
    };
  }

module _ {fl : FloatOps} {OrderId S W : Type 0} (x : Executor fl OrderId S W)
    (Q : Placement S → Type 0) where
  open fl use {F, lit}

  abbrev P : Type 0
  P = Progress fl OrderId S (W × List (Placement S))

  abbrev t : Executor fl OrderId S (W × List (Placement S))
  t = traced x

  unfoldable Safe : P → Type 0
  Safe p = All Q p.world.1

  -- What a row may be placed as: at most its quantity, and some of it.
  abbrev pub Allows : LedgerRow fl S → RowAction → Type 0
  Allows row buy_row =
      (qty : ℕ) → 0 < qty → qty ≤ qty_of t row → Q (placement bought row.symbol qty)
  Allows row sell_row = 0 < qty_of t row → Q (placement sold row.symbol (qty_of t row))
  Allows row no_row = Unit

  with_rate-Safe : (total : F) (fx : Option F) (p : P) → Safe p → Safe (with_rate t total fx p)
  unfolding Safe
  with_rate-Safe total none p h = h
  with_rate-Safe total (some fx) p h = h

  known_rate-Safe : (total : F) (fx : Option F) (p : P) → Safe p → Safe (known_rate t total fx p)
  unfolding Safe
  known_rate-Safe total (some fx) p h = h
  known_rate-Safe total none p h =
      let answer = x.trader.get_usdkrw_rate p.world.0 in
      let seen = at_world t (answer.1, p.world.1) p in
      if_cases Safe x.trader.has_rate (with_rate t total (positive t (joined t answer.0)) seen)
        (with_rate t total none p)
        (λ e. with_rate-Safe total (positive t (joined t answer.0)) seen h)
        (λ e. with_rate-Safe total none p h)

  with_balance-Safe :
      (bal : Option (BrokerBalance fl)) (p : P) → Safe p → Safe (with_balance t bal p)
  unfolding Safe
  with_balance-Safe none p h = h
  with_balance-Safe (some bal) p h = known_rate-Safe bal.total_value (positive t bal.fx_usdkrw) p h

  unless_known-Safe : (budget : Option F) (p : P) → Safe p → Safe (unless_known t budget p)
  unfolding Safe
  unless_known-Safe (some b) p h = h
  unless_known-Safe none p h =
      let bal = x.trader.get_balance p.world.0 in
      with_balance-Safe bal.0 (at_world t (bal.1, p.world.1) p) h

  init-Safe : (p : P) → Safe p → Safe (init_balance_budget t p)
  unfolding init_balance_budget
  init-Safe p h = unless_known-Safe p.remaining_budget_usd p h

  cash_cap-Safe : (sym : S) (px : F) (p : P) → Safe p → Safe (cash_cap t sym px p).1
  unfolding cash_cap Safe
  cash_cap-Safe sym px p h =
      if_cases (λ (r : Option ℕ × P). Safe r.1) (fl.lt (lit 0 1) px && x.trader.has_orderable) _
        (none, p) (λ e. h) (λ e. h)

  budget_cap-Safe : (px : F) (c : Option ℕ × P) → Safe c.1 → Safe (budget_cap t px c).1
  budget_cap-Safe px (some cap, p) h = h
  budget_cap-Safe px (none, p) h = init-Safe p h

  placed-Safe :
      (side : Side) (sym : S) (answer : Option (OrderResult fl OrderId S)) (budget : Option F)
      (p : P)
      → Safe p
      → Safe (placed t side sym answer budget p)
  unfolding Safe
  placed-Safe side sym none budget p h = h
  placed-Safe side sym (some r) budget p h = h

  capped-le : (cap : Option ℕ) (qty : ℕ) → capped t cap qty ≤ qty
  capped-le none qty = omega arith
  capped-le (some cap) qty = omega arith

  buy_capped-Safe :
      (sym : S) (px : F) (qty : ℕ) (p : P)
      → (0 < qty → Q (placement bought sym qty))
      → Safe p
      → Safe (buy_capped t sym px qty p)
  unfolding Safe
  buy_capped-Safe sym px qty p q h =
      let answer = x.trader.place_buy_order sym qty p.world.0 in
      let seen = at_world t (answer.1, placement bought sym qty ∷ p.world.1) p in
      if_cases Safe (qty == 0) _
        (placed t bought sym answer.0 (spent t px qty p.remaining_budget_usd) seen) (λ e. h)
        (λ e.
          placed-Safe bought sym answer.0 (spent t px qty p.remaining_budget_usd) seen
            (q (ground arith), h))

  buy-Safe :
      (row : LedgerRow fl S) (p : P)
      → Allows row buy_row
      → Safe p
      → Safe (execute_buy t row.symbol (qty_of t row) p)
  unfolding execute_buy
  buy-Safe row p q h =
      let price = x.trader.get_current_price row.symbol p.world.0 in
      let px = or_zero t price.0 in
      let asked = cash_cap t row.symbol px (at_world t (price.1, p.world.1) p) in
      let cap = budget_cap t px asked in
      buy_capped-Safe row.symbol px (capped t cap.0 (qty_of t row)) cap.1
        (λ k. q _ k (capped-le cap.0 (qty_of t row)))
        (budget_cap-Safe px asked (cash_cap-Safe row.symbol px _ (unfold Safe in h)))

  side-Safe :
      (row : LedgerRow fl S) (action : RowAction) (p : P)
      → 0 < qty_of t row
      → Allows row action
      → Safe p
      → Safe (execute_side t action row.symbol (qty_of t row) p)
  unfolding execute_sell Safe
  side-Safe row buy_row p k q h = buy-Safe row p q h
  side-Safe row sell_row p k q h =
      let answer = x.trader.place_sell_order row.symbol (qty_of t row) p.world.0 in
      placed-Safe sold row.symbol answer.0 p.remaining_budget_usd
        (at_world t (answer.1, placement sold row.symbol (qty_of t row) ∷ p.world.1) p) (q k, h)
  side-Safe row no_row p k q h = h

  row-Safe :
      (row : LedgerRow fl S) (p : P) → Allows row row.action → Safe p → Safe (execute_row t row p)
  unfolding execute_row
  row-Safe row p q h =
      if_cases Safe (x.blank row.symbol) p _ (λ e. h)
        (λ e.
          if_cases Safe (qty_of t row == 0) p _ (λ z. h)
            (λ z. side-Safe row row.action p (ground arith) q h))

  rows-Safe :
      (rows : List (LedgerRow fl S)) (p : P)
      → All (λ (row : LedgerRow fl S). Allows row row.action) rows
      → Safe p
      → Safe (execute_rows t rows p)
  unfolding execute_rows
  rows-Safe [] p q h = h
  rows-Safe (row ∷ rows) p q h =
      go (leb x.max_orders p.count)
        (rows-Safe rows (execute_row t row p) q.1 (row-Safe row p q.0 h))
    where
      go :
          (b : Bool)
          → Safe (execute_rows t rows (execute_row t row p))
          → Safe (elim b [
            | true ↦ warn t cap_reached p
            | false ↦ execute_rows t rows (execute_row t row p)
          ])
      go true k = unfold Safe in h
      go false k = k

  pub orders-Safe :
      (rows : List (LedgerRow fl S)) (w : W)
      → All (λ (row : LedgerRow fl S). Allows row row.action) rows
      → All Q (execute_from_ledger_rows t rows (w, [])).world.1
  unfolding execute_from_ledger_rows Safe
  orders-Safe [] w q = tt
  orders-Safe (row ∷ rows) w q = rows-Safe (row ∷ rows) (start t (w, [])) q tt
