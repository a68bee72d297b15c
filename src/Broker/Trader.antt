-- ===== src/Broker/Trader.antt =====
-- src/pretrend/pipeline/broker/base.py: the methods of a broker's adapter that the placing of orders calls, and
-- their answers. As in `Broker.Adapter` they are parameters that take the outside world and return
-- it, with `none` for an exception.
use pretrend_ai.Base.{ℕ, Bool, Option, List}
use pretrend_ai.Base.Float.{FloatOps}
use pretrend_ai.Backtest.Portfolio.{Side}

-- The strings that an order's result has for its status: an order that the service refuses comes back as
-- FAILED, with an id of the client's own.
pub data OrderStatus : Type 0 where
  accepted_order failed_order other_order_status : OrderStatus

module _ (fl : FloatOps) where
  open fl use {F}

  pub record BrokerBalance : Type 0 where
    pub cash : F
    pub total_value : F
    pub fx_usdkrw : Option F

  pub record BrokerPosition (S : Type 0) : Type 0 where
    pub symbol : S
    pub quantity : F
    pub avg_price : F
    pub market_price : Option F
    pub market_value : Option F

  pub record OrderResult (OrderId S : Type 0) : Type 0 where
    pub order_id : OrderId
    pub symbol : S
    pub side : Side
    pub quantity : F
    pub requested_price : Option F
    pub filled_price : Option F
    pub status : OrderStatus

-- `has_rate` and `has_orderable` are the two `hasattr` tests.
pub record Trader (fl : FloatOps) (OrderId S W : Type 0) : Type 0 where
  pub has_rate : Bool
  pub has_orderable : Bool
  pub get_balance : W → Option (BrokerBalance fl) × W
  pub get_positions : W → Option (List (BrokerPosition fl S)) × W
  pub get_current_price : S → W → Option fl.F × W
  pub get_usdkrw_rate : W → Option (Option fl.F) × W
  pub get_orderable_cash_usd : S → W → Option (Option fl.F) × W
  pub place_buy_order : S → ℕ → W → Option (OrderResult fl OrderId S) × W
  pub place_sell_order : S → ℕ → W → Option (OrderResult fl OrderId S) × W
