-- ===== src/Broker/Execute.antt =====
-- src/pretrend/pipeline/broker/order_manager.py: `execute_from_ledger_rows`. The symbols are in capitals and
-- stripped, `blank` is the test for an empty one, and the text of a warning is its constructor. No number of shares is NaN.
use pretrend_ai.Base.{ℕ, Bool, min, Option, none, some, List, [], ◌∷◌, ◌++◌, if◌then◌else◌}
use pretrend_ai.Base.Int.{pos_part}
use pretrend_ai.Base.Float.{FloatOps, fmin, fmax}
use pretrend_ai.Backtest.Portfolio.{Side}
use pretrend_ai.Broker.Trader.{BrokerBalance, BrokerPosition, OrderResult, Trader}

-- `action` of a ledger row: BUY, SELL, or anything else
pub data RowAction : Type 0 where
  buy_row sell_row no_row : RowAction

pub data Note (S : Type 0) : Type 0 where
  ledger_empty cap_reached : Note S
  no_budget : S → Note S
  order_failed : Side → S → Note S

module _ (fl : FloatOps) (S : Type 0) where
  open fl use {F}

  -- `shares` is `none` where `float` refuses it.
  pub record LedgerRow : Type 0 where
    pub action : RowAction
    pub symbol : S
    pub shares : Option F

-- The variables of the loop and the world.
pub record Progress (fl : FloatOps) (OrderId S W : Type 0) : Type 0 where
  pub results : List (OrderResult fl OrderId S)
  pub count : ℕ
  pub remaining_budget_usd : Option fl.F
  pub warnings : List (Note S)
  pub world : W

-- The adapter and the arguments that do not change; `max_ratio` is `PAPER_MAX_INVESTED_RATIO`,
-- `none` for a text that is no number.
pub record Executor (fl : FloatOps) (OrderId S W : Type 0) : Type 0 where
  pub trader : Trader fl OrderId S W
  pub blank : S → Bool
  pub max_orders : ℕ
  pub qty_scale_factor : fl.F
  pub max_ratio : Option fl.F

module _ {fl : FloatOps} {OrderId S W : Type 0} (x : Executor fl OrderId S W) where
  open fl use {F, lit, add, sub, mul, div, lt, le, round, trunc}

  abbrev pub P : Type 0
  P = Progress fl OrderId S W

  abbrev pub warn : Note S → P → P
  warn note p = record p { warnings = p.warnings ++ (note ∷ []) }

  abbrev pub at_world : W → P → P
  at_world w p = record p { world = w }

  abbrev pub with_budget : Option F → W → P → P
  with_budget b w p = record p { remaining_budget_usd = b; world = w }

  abbrev pub positive : Option F → Option F
  positive none = none
  positive (some v) = if lt (lit 0 0) v then some v else none

  abbrev pub joined : Option (Option F) → Option F
  joined none = none
  joined (some v) = v

  -- the market value of a position, or its quantity at its market price or its average price
  abbrev pub price_of : Option F → F → F
  price_of none avg = avg
  price_of (some mp) avg = if le mp (lit 0 0) then avg else mp

  abbrev pub value_of : BrokerPosition fl S → Option F → F
  value_of pos none = mul pos.quantity (price_of pos.market_price pos.avg_price)
  value_of pos (some mv) =
      if le mv (lit 0 0) then mul pos.quantity (price_of pos.market_price pos.avg_price) else mv

  unfoldable pub invested_usd : F → List (BrokerPosition fl S) → F
  invested_usd total [] = total
  invested_usd total (pos ∷ rest) =
      invested_usd (add total (fmax fl (lit 0 1) (value_of pos pos.market_value))) rest

  abbrev pub invested_of : Option (List (BrokerPosition fl S)) → F
  invested_of none = lit 0 1
  invested_of (some positions) = invested_usd (lit 0 1) positions

  abbrev pub ratio_cap : Option F → F
  ratio_cap none = fmin fl (lit 10 1) (fmax fl (lit 0 1) (lit 8 1))
  ratio_cap (some v) = fmin fl (lit 10 1) (fmax fl (lit 0 1) v)

  abbrev pub budget_of : F → F → F
  budget_of total_usd invested =
      fmax fl (lit 0 1) (sub (mul total_usd (ratio_cap x.max_ratio)) invested)

  -- with a rate the positions are asked for, without one there is no budget
  abbrev pub with_rate : F → Option F → P → P
  with_rate total none p = with_budget none p.world p
  with_rate total (some fx) p =
      let held = x.trader.get_positions p.world in
      with_budget (some (budget_of (div total fx) (invested_of held.0))) held.1 p

  abbrev pub known_rate : F → Option F → P → P
  known_rate total (some fx) p = with_rate total (some fx) p
  known_rate total none p =
      let answer = x.trader.get_usdkrw_rate p.world in
      if x.trader.has_rate
      then with_rate total (positive (joined answer.0)) (at_world answer.1 p)
      else with_rate total none p

  abbrev pub with_balance : Option (BrokerBalance fl) → P → P
  with_balance none p = with_budget none p.world p
  with_balance (some bal) p = known_rate bal.total_value (positive bal.fx_usdkrw) p

  abbrev pub unless_known : Option F → P → P
  unless_known (some b) p = p
  unless_known none p =
      let bal = x.trader.get_balance p.world in with_balance bal.0 (at_world bal.1 p)

  -- `_init_balance_budget`: once there is a budget it is not asked for again
  unfoldable pub init_balance_budget : P → P
  unfolding invested_usd
  init_balance_budget p = unless_known p.remaining_budget_usd p

  abbrev pub or_zero : Option F → F
  or_zero none = lit 0 1
  or_zero (some v) = v

  -- `max(0, int(amount / px))`
  abbrev pub shares_for : F → F → ℕ
  shares_for amount px = pos_part (trunc (div amount px))

  abbrev pub cap_of : F → Option F → Option ℕ
  cap_of px none = none
  cap_of px (some amount) = if lt (lit 0 0) px then some (shares_for amount px) else none

  abbrev pub capped : Option ℕ → ℕ → ℕ
  capped none qty = qty
  capped (some cap) qty = min qty cap
