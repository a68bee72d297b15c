-- ===== src/Backtest/Rebalance.antt =====
-- src/pretrend/pipeline/backtest/portfolio.py: `Portfolio.rebalance_to_weights`, its three passes in
-- the source's order. A pass takes the portfolio and returns its trades with the portfolio after it.
use pretrend_ai.Base.{
  ℕ, Bool, ◌&&◌, not, Option, none, some, List, [], ◌∷◌, ◌++◌, map, if◌then◌else◌,
}
use pretrend_ai.Base.Float.{FloatOps, fmin, fmax}
use pretrend_ai.Base.Dict.{get, has}
use pretrend_ai.Backtest.Portfolio.{Position, Portfolio, Trade, buy, sell, market_value}

module _ (fl : FloatOps) (S : Type 0) (eqb : S → S → Bool) where
  open fl use {F, lit, add, sub, mul, lt}

  -- a symbol that the prices name, its price, and the amount that the target gives it
  pub record Target : Type 0 where
    pub symbol : S
    pub price : F
    pub amount : F

  abbrev pub or_zero : Option F → F
  or_zero none = lit 0 1
  or_zero (some a) = a

  abbrev pub with_target : S → F → F → Option F → List Target → List Target
  with_target sym w invested none rest = rest
  with_target sym w invested (some price) rest =
      if lt (lit 0 0) price
      then record { symbol = sym; price = price; amount = mul invested w } ∷ rest
      else rest

  -- `target_amounts`
  unfoldable pub target_amounts : List (S × F) → List (S × F) → F → List Target
  target_amounts [] prices invested = []
  target_amounts ((sym, w) ∷ weights) prices invested =
      with_target sym w invested (get eqb sym prices) (target_amounts weights prices invested)

  abbrev pub with_current : S → Position fl → Option F → List (S × F) → List (S × F)
  with_current sym pos none rest = rest
  with_current sym pos (some price) rest = (sym, market_value fl S eqb pos price) ∷ rest

  -- `current_amounts`, computed once before the first sale
  unfoldable pub current_amounts : List (S × Position fl) → List (S × F) → List (S × F)
  current_amounts [] prices = []
  current_amounts ((sym, pos) ∷ rest) prices =
      with_current sym pos (get eqb sym prices) (current_amounts rest prices)

  -- What does not change during the passes.
  pub record Plan : Type 0 where
    pub weights : List (S × F)
    pub prices : List (S × F)
    pub currents : List (S × F)
    pub min_hold : List (S × F)
    pub day : ℕ

  -- `max(0.0, float(min_hold_values.get(sym, 0.0)))`
  abbrev pub protected_min : Plan → S → F
  protected_min plan sym = fmax fl (lit 0 1) (or_zero (get eqb sym plan.min_hold))

  abbrev pub Step : Type 0
  Step = Option (Trade fl S) × Portfolio fl S

  abbrev pub Pass : Type 0
  Pass = List (Trade fl S) × Portfolio fl S

  -- `if t: trades.append(t)`
  abbrev pub append_trade : Option (Trade fl S) → List (Trade fl S) → List (Trade fl S)
  append_trade none ts = ts
  append_trade (some t) ts = t ∷ ts

  abbrev pub exit_at : Plan → S → Option F → Portfolio fl S → Step
  exit_at plan sym none p = (none, p)
  exit_at plan sym (some price) p =
      let cur = or_zero (get eqb sym plan.currents) in
      let sell_amt = fmax fl (sub cur (protected_min plan sym)) (lit 0 1) in
      if not (has eqb sym plan.weights) && lt (lit 0 0) sell_amt
      then sell fl S eqb sym sell_amt price plan.day p
      else (none, p)

  -- the positions that the target does not name, down to their protected amount
  unfoldable pub sell_exits : Plan → List S → Portfolio fl S → Pass
  sell_exits plan [] p = ([], p)
  sell_exits plan (sym ∷ syms) p =
      let step = exit_at plan sym (get eqb sym plan.prices) p in
      let rest = sell_exits plan syms step.1 in (append_trade step.0 rest.0, rest.1)

  abbrev pub reduce_at : Plan → Target → Portfolio fl S → Step
  reduce_at plan t p =
      let cur = or_zero (get eqb t.symbol plan.currents) in
      let sell_amt =
        fmin fl (sub cur t.amount) (fmax fl (sub cur (protected_min plan t.symbol)) (lit 0 1)) in
      if lt (add t.amount (lit 1 2)) cur
      then sell fl S eqb t.symbol sell_amt t.price plan.day p
      else (none, p)

  -- the positions above their target
  unfoldable pub sell_reductions : Plan → List Target → Portfolio fl S → Pass
  sell_reductions plan [] p = ([], p)
  sell_reductions plan (t ∷ ts) p =
      let step = reduce_at plan t p in
      let rest = sell_reductions plan ts step.1 in (append_trade step.0 rest.0, rest.1)

  -- `cur_pos.market_value(prices[sym])`, 0.0 without a position
  abbrev pub value_now : Option (Position fl) → F → F
  value_now none price = lit 0 1
  value_now (some pos) price = market_value fl S eqb pos price

  abbrev pub buy_at : Plan → Target → Portfolio fl S → Step
  buy_at plan t p =
      let cur_val = value_now (get eqb t.symbol p.positions) t.price in
      if lt (add cur_val (lit 1 2)) t.amount
      then buy fl S eqb t.symbol (sub t.amount cur_val) t.price plan.day p
      else (none, p)

  -- the positions below their target, with the cash there is
  unfoldable pub buy_targets : Plan → List Target → Portfolio fl S → Pass
  buy_targets plan [] p = ([], p)
  buy_targets plan (t ∷ ts) p =
      let step = buy_at plan t p in
      let rest = buy_targets plan ts step.1 in (append_trade step.0 rest.0, rest.1)

  -- the three passes, sales first
  unfoldable pub run_plan : Plan → List Target → Portfolio fl S → Pass
  unfolding sell_exits sell_reductions buy_targets
  run_plan plan targets p =
      let exits = sell_exits plan (map (λ e. e.0) p.positions) p in
      let reductions = sell_reductions plan targets exits.1 in
      let buys = buy_targets plan targets reductions.1 in
      ((exits.0 ++ reductions.0) ++ buys.0, buys.1)

  unfoldable pub rebalance_to_weights :
      List (S × F) → List (S × F) → F → ℕ → List (S × F) → Portfolio fl S → Pass
  unfolding target_amounts current_amounts run_plan
  rebalance_to_weights weights prices invested day min_hold p =
      run_plan
        (record {
          weights = weights;
          prices = prices;
          currents = current_amounts p.positions prices;
          min_hold = min_hold;
          day = day;
        })
        (target_amounts weights prices invested) p
