-- ===== src/Broker/OrderCount.antt =====
-- The number of order results that a ledger leads to.
use pretrend_ai.Base.{
  ℕ, suc, ◌≤◌, Bool, true, false, ◌≡◌, refl, ◌&&◌, ◌==◌, leb, Option, none, some, List, [], ◌∷◌,
  if_cases, length, length-append, arith,
}
use pretrend_ai.Base.Float.{FloatOps}
use pretrend_ai.Backtest.Portfolio.{Side, bought, sold}
use pretrend_ai.Broker.Trader.{BrokerBalance, OrderResult}
use pretrend_ai.Broker.Execute.{
  RowAction, buy_row, sell_row, no_row, LedgerRow, Progress, Executor, warn, at_world, positive,
  joined, init_balance_budget, with_rate, known_rate, with_balance, unless_known, cap_reached,
  or_zero, capped,
}
use pretrend_ai.Broker.Orders.{
  cash_cap, budget_cap, spent, placed, execute_buy, execute_sell, qty_of, execute_side, execute_row,
  execute_rows, start, execute_from_ledger_rows,
}

module _ {fl : FloatOps} {OrderId S W : Type 0} (x : Executor fl OrderId S W) where
  open fl use {F, lit}

  abbrev P : Type 0
  P = Progress fl OrderId S W

  -- The counter counts the results, of which there are n at most.
  unfoldable Counts : ℕ → P → Type 0
  Counts n p = (p.count ≡ length p.results) × (length p.results ≤ n)

  Counts-le : (n m : ℕ) (p : P) → n ≤ m → Counts n p → Counts m p
  unfolding Counts
  Counts-le n m p l h = omega (arith, h)

  with_rate-Counts :
      (n : ℕ) (total : F) (fx : Option F) (p : P) → Counts n p → Counts n (with_rate x total fx p)
  unfolding Counts
  with_rate-Counts n total none p h = h
  with_rate-Counts n total (some fx) p h = h

  known_rate-Counts :
      (n : ℕ) (total : F) (fx : Option F) (p : P) → Counts n p → Counts n (known_rate x total fx p)
  unfolding Counts
  known_rate-Counts n total (some fx) p h = h
  known_rate-Counts n total none p h =
      let answer = x.trader.get_usdkrw_rate p.world in
      let seen = at_world x answer.1 p in
      if_cases (Counts n) x.trader.has_rate
        (with_rate x total (positive x (joined x answer.0)) seen) (with_rate x total none p)
        (λ e. with_rate-Counts n total (positive x (joined x answer.0)) seen h)
        (λ e. with_rate-Counts n total none p h)

  with_balance-Counts :
      (n : ℕ) (bal : Option (BrokerBalance fl)) (p : P)
      → Counts n p
      → Counts n (with_balance x bal p)
  unfolding Counts
  with_balance-Counts n none p h = h
  with_balance-Counts n (some bal) p h =
      known_rate-Counts n bal.total_value (positive x bal.fx_usdkrw) p h

  unless_known-Counts :
      (n : ℕ) (budget : Option F) (p : P) → Counts n p → Counts n (unless_known x budget p)
  unfolding Counts
  unless_known-Counts n (some b) p h = h
  unless_known-Counts n none p h =
      let bal = x.trader.get_balance p.world in with_balance-Counts n bal.0 (at_world x bal.1 p) h

  cash_cap-Counts :
      (n : ℕ) (sym : S) (px : F) (p : P) → Counts n p → Counts n (cash_cap x sym px p).1
  unfolding cash_cap Counts
  cash_cap-Counts n sym px p h =
      if_cases (λ (r : Option ℕ × P). Counts n r.1) (fl.lt (lit 0 1) px && x.trader.has_orderable) _
        (none, p) (λ e. h) (λ e. h)

  budget_cap-Counts :
      (n : ℕ) (px : F) (c : Option ℕ × P) → Counts n c.1 → Counts n (budget_cap x px c).1
  unfolding init_balance_budget
  budget_cap-Counts n px (some cap, p) h = h
  budget_cap-Counts n px (none, p) h = unless_known-Counts n p.remaining_budget_usd p h

  placed-Counts :
      (n : ℕ) (side : Side) (sym : S) (answer : Option (OrderResult fl OrderId S))
      (budget : Option F) (p : P)
      → Counts n p
      → Counts (suc n) (placed x side sym answer budget p)
  unfolding Counts
  placed-Counts n side sym none budget p h = omega (arith, h)
  placed-Counts n side sym (some r) budget p h = omega (arith, h, length-append p.results (r ∷ []))

  buy-Counts :
      (n : ℕ) (sym : S) (qty : ℕ) (p : P) → Counts n p → Counts (suc n) (execute_buy x sym qty p)
  unfolding execute_buy Counts
  buy-Counts n sym qty p h =
      let price = x.trader.get_current_price sym p.world in
      let px = or_zero x price.0 in
      let asked = cash_cap x sym px (at_world x price.1 p) in
      let cap = budget_cap x px asked in
      let bought_qty = capped x cap.0 qty in
      let counted = budget_cap-Counts n px asked (cash_cap-Counts n sym px _ h) in
      let answer = x.trader.place_buy_order sym bought_qty cap.1.world in
      if_cases (Counts (suc n)) (bought_qty == 0) _
        (placed x bought sym answer.0 (spent x px bought_qty cap.1.remaining_budget_usd)
          (at_world x answer.1 cap.1))
        (λ e. Counts-le n (suc n) cap.1 (omega arith) counted)
        (λ e. placed-Counts n bought sym answer.0 _ (at_world x answer.1 cap.1) counted)

  side-Counts :
      (n : ℕ) (action : RowAction) (sym : S) (qty : ℕ) (p : P)
      → Counts n p
      → Counts (suc n) (execute_side x action sym qty p)
  unfolding execute_sell Counts
  side-Counts n buy_row sym qty p h = buy-Counts n sym qty p h
  side-Counts n sell_row sym qty p h =
      let answer = x.trader.place_sell_order sym qty p.world in
      placed-Counts n sold sym answer.0 p.remaining_budget_usd (at_world x answer.1 p) h
  side-Counts n no_row sym qty p h = Counts-le n (suc n) p (omega arith) h

  row-Counts :
      (n : ℕ) (row : LedgerRow fl S) (p : P) → Counts n p → Counts (suc n) (execute_row x row p)
  unfolding execute_row
  row-Counts n row p h =
      if_cases (Counts (suc n)) (x.blank row.symbol) p _
        (λ e. Counts-le n (suc n) p (omega arith) h)
        (λ e.
          if_cases (Counts (suc n)) (qty_of x row == 0) p _
            (λ z. Counts-le n (suc n) p (omega arith) h)
            (λ z. side-Counts n row.action row.symbol (qty_of x row) p h))

  turn-Counts :
      (row : LedgerRow fl S) (p : P)
      → leb x.max_orders p.count ≡ false
      → Counts x.max_orders p
      → Counts x.max_orders (execute_row x row p)
  unfolding Counts
  turn-Counts row p e h =
      Counts-le (suc p.count) x.max_orders (execute_row x row p) (ground arith)
        (row-Counts p.count row p (omega (arith, h)))

  rows-Counts :
      (rows : List (LedgerRow fl S)) (p : P)
      → Counts x.max_orders p
      → Counts x.max_orders (execute_rows x rows p)
  unfolding execute_rows
  rows-Counts [] p h = h
  rows-Counts (row ∷ rows) p h =
      go (leb x.max_orders p.count)
        (λ e. rows-Counts rows (execute_row x row p) (turn-Counts row p e h))
    where
      go :
          (b : Bool)
          → (b ≡ false → Counts x.max_orders (execute_rows x rows (execute_row x row p)))
          → Counts x.max_orders (elim b [
            | true ↦ warn x cap_reached p
            | false ↦ execute_rows x rows (execute_row x row p)
          ])
      go true f = unfold Counts in h
      go false f = f refl

  start-Counts : (w : W) → Counts x.max_orders (start x w)
  unfolding Counts
  start-Counts w = omega arith

  result-Counts :
      (rows : List (LedgerRow fl S)) (w : W)
      → Counts x.max_orders (execute_from_ledger_rows x rows w)
  unfolding execute_from_ledger_rows
  result-Counts [] w = unfold Counts in omega arith
  result-Counts (row ∷ rows) w = rows-Counts (row ∷ rows) (start x w) (start-Counts w)

  -- From one ledger at most `max_orders` order results come back, those with the status FAILED included, and
  -- the counter of the loop is their number. A placement that raises gives no result and is not counted.
  pub order_results_capped :
      (rows : List (LedgerRow fl S)) (w : W)
      → let out = execute_from_ledger_rows x rows w in
        (out.count ≡ length out.results) × (length out.results ≤ x.max_orders)
  unfolding Counts
  order_results_capped rows w = result-Counts rows w
