-- ===== src/Broker/Targets.antt =====
-- src/pretrend/pipeline/broker/execution_planner.py: `build_broker_target_orders`.
use pretrend_ai.Base.{
  ℕ, ◌+◌, Bool, true, false, ◌&&◌, not, ◌==◌, Option, none, some, List, [], ◌∷◌, ◌++◌, keep, any,
  map, min, if◌then◌else◌,
}
use pretrend_ai.Base.Int.{ℤ, pos, pos_part, neg_part}
use pretrend_ai.Base.Float.{FloatOps, fmax}
use pretrend_ai.Base.Dict.{get, put, has}
use pretrend_ai.Regime.Labels.{Bias}
use pretrend_ai.Strategy.Allocation.{Action}
use pretrend_ai.Backtest.Portfolio.{Side, bought, sold}
use pretrend_ai.Backtest.Rebalancer.{Names, UniverseRow, Weights}
use pretrend_ai.Broker.Planner.{
  Universe, Reason, target_exit, target_adjust, target_zero, compute_target_weights,
}

module _ (fl : FloatOps) (names : Names) where
  open fl use {F, lit, of_int, sub, mul, div, lt, le, eq, round, trunc}
  open names use {S, same_symbol, schd}

  pub record TargetOrder : Type 0 where
    pub symbol : S
    pub action : Side
    pub qty : ℕ
    pub estimated_price : F
    pub target_usd : F
    pub reason : Reason fl names

  -- The arguments of the plan; a price that is `None` is `none`.
  pub record Request : Type 0 where
    pub action : Action
    pub next_invested_ratio : F
    pub what_to_hold : List (UniverseRow fl names)
    pub broker_nav_usd : F
    pub broker_positions : List (S × F)
    pub live_prices : List (S × Option F)
    pub effective_bias : Bias
    pub allow_sell : Bool
    pub lock_sell_symbols : List S
    pub schd_min_weight : F

  unfoldable pub position_map : List (S × F) → List (S × F) → List (S × F)
  position_map d [] = d
  position_map d ((sym, qty) ∷ rest) = position_map (put same_symbol sym qty d) rest

  abbrev pub put_price : S → Option F → List (S × F) → List (S × F)
  put_price sym none d = d
  put_price sym (some price) d = if lt (lit 0 0) price then put same_symbol sym price d else d

  unfoldable pub clean_prices : List (S × F) → List (S × Option F) → List (S × F)
  clean_prices d [] = d
  clean_prices d ((sym, price) ∷ rest) = clean_prices (put_price sym price d) rest

  -- `round(x)`, an integer
  abbrev pub round_int : F → ℤ
  round_int x = trunc (round x 0)

  abbrev pub guards_schd : Request → S → F → Bool
  guards_schd q sym price =
      same_symbol sym schd
      && (lt (lit 0 1) q.schd_min_weight && (lt (lit 0 0) q.broker_nav_usd && lt (lit 0 0) price))

  -- the shares of SCHD above its floor
  unfoldable pub schd_free : Request → F → F → ℕ
  schd_free q current price =
      let floor_usd = mul q.broker_nav_usd q.schd_min_weight in
      pos_part (trunc (div (fmax fl (lit 0 1) (sub (mul current price) floor_usd)) price))

  unfoldable pub floored_qty : Request → S → F → F → ℕ → ℕ
  unfolding schd_free
  floored_qty q sym current price qty =
      if guards_schd q sym price then min qty (schd_free q current price) else qty

  abbrev pub if_any : TargetOrder → List TargetOrder → List TargetOrder
  if_any row rest = if row.qty == 0 then rest else row ∷ rest

  abbrev pub zero_order : Request → S → F → F → TargetOrder
  zero_order q sym current price = record {
    symbol = sym;
    action = sold;
    qty = floored_qty q sym current price (pos_part (round_int current));
    estimated_price = price;
    target_usd = lit 0 1;
    reason = target_zero;
  }

  abbrev pub zero_row : Request → S → F → Option F → List TargetOrder → List TargetOrder
  zero_row q sym current none rest = rest
  zero_row q sym current (some price) rest = if_any (zero_order q sym current price) rest

  unfoldable pub zero_rows : Request → List (S × F) → List (S × F) → List TargetOrder
  unfolding floored_qty
  zero_rows q prices [] = []
  zero_rows q prices ((sym, current) ∷ held) =
      zero_row q sym current (get same_symbol sym prices) (zero_rows q prices held)

  abbrev pub or_zero : Option F → F
  or_zero none = lit 0 1
  or_zero (some x) = x

  unfoldable pub target_usd : Request → S → F → F
  target_usd q sym weight =
      let usd = fmax fl (lit 0 1) (mul (mul q.broker_nav_usd q.next_invested_ratio) weight) in
      if same_symbol sym schd && (lt (lit 0 1) q.schd_min_weight && lt (lit 0 0) q.broker_nav_usd)
      then fmax fl usd (mul q.broker_nav_usd q.schd_min_weight)
      else usd

  abbrev pub or_reason : Option (Reason fl names) → ℤ → Reason fl names
  or_reason (some r) qty = r
  or_reason none qty = if pos_part qty + neg_part qty == 0 then target_exit else target_adjust

  abbrev pub magnitude : ℤ → ℕ
  magnitude a = pos_part a + neg_part a

  -- the order that moves the position of a symbol towards its target
  abbrev pub move_order : Request → S → F → F → F → ℤ → Option (Reason fl names) → TargetOrder
  move_order q sym current price usd target_qty reason =
      let delta = sub (of_int target_qty) current in
      let wanted = magnitude (round_int delta) in
      let buys = lt (lit 0 0) delta in
      record {
        symbol = sym;
        action = if buys then bought else sold;
        qty = if buys then wanted else floored_qty q sym current price wanted;
        estimated_price = price;
        target_usd = round usd 6;
        reason = or_reason reason target_qty;
      }

  abbrev pub move_row :
      Request
      → S
      → F
      → F
      → Option (Reason fl names)
      → Option F
      → List TargetOrder
      → List TargetOrder
  move_row q sym current usd reason none rest = rest
  move_row q sym current usd reason (some price) rest =
      let target_qty = if lt (lit 0 0) price then round_int (div usd price) else pos 0 in
      if eq (sub (of_int target_qty) current) (lit 0 0)
      then rest
      else if_any (move_order q sym current price usd target_qty reason) rest

  unfoldable pub move_rows :
      Request
      → Weights fl names
      → List (S × Reason fl names)
      → List (S × F)
      → List (S × F)
      → List S
      → List TargetOrder
  unfolding floored_qty target_usd
  move_rows q weights reasons prices held [] = []
  move_rows q weights reasons prices held (sym ∷ syms) =
      move_row q sym (or_zero (get same_symbol sym held))
        (target_usd q sym (or_zero (get same_symbol sym weights))) (get same_symbol sym reasons)
        (get same_symbol sym prices) (move_rows q weights reasons prices held syms)

  abbrev pub is_sale : Side → Bool
  is_sale sold = true
  is_sale bought = false

  -- the two filters at the end
  abbrev pub is_allowed : Request → TargetOrder → Bool
  is_allowed q row =
      not (is_sale row.action && any (λ s. same_symbol s row.symbol) q.lock_sell_symbols)
      && not (is_sale row.action && not q.allow_sell)

  abbrev pub is_hold : Action → Bool
  is_hold Action.hold = true
  is_hold _ = false

  -- all rows, before the filters
  unfoldable pub planned_rows : Universe fl names → Request → List TargetOrder
  unfolding position_map clean_prices zero_rows move_rows compute_target_weights
  planned_rows u q =
      let held = position_map [] q.broker_positions in
      let prices = clean_prices [] q.live_prices in
      let target = compute_target_weights fl names u q.what_to_hold q.effective_bias in
      let others = keep (λ s. not (has same_symbol s target.0)) (map (λ e. e.0) held) in
      if le q.next_invested_ratio (lit 0 1)
      then zero_rows q prices held
      else move_rows q target.0 target.1 prices held (map (λ e. e.0) target.0 ++ others)

  unfoldable pub build_broker_target_orders : Universe fl names → Request → List TargetOrder
  unfolding planned_rows
  build_broker_target_orders u q =
      if is_hold q.action then [] else keep (is_allowed q) (planned_rows u q)
