-- ===== src/Broker/Adapter.antt =====
-- src/pretrend/pipeline/broker/base.py: the adapter of a broker. Its methods reach a service over the
-- network, so an adapter is a parameter: each method takes the outside world and returns its answer,
-- `none` for an exception, with the world after the call.
use pretrend_ai.Base.{ℕ, Bool, Option, List}
use pretrend_ai.Base.Float.{FloatOps}
use pretrend_ai.Backtest.Portfolio.{Side}

-- The strings that `get_order_status` and `cancel_order` answer, as far as the callers tell them apart.
pub data Status : Type 0 where
  filled partial_filled accepted unknown_status other_status : Status

pub data CancelStatus : Type 0 where
  cancelled_status failed_status already_filled other_cancel_status : CancelStatus

-- A cell of a row of `_inquire_algo_ccnl`: `None`, a value that `float` refuses, or a number.
pub data Cell (F : Type 0) : Type 0 where
  missing unreadable : Cell F
  number : F → Cell F

module _ (fl : FloatOps) where
  open fl use {F}

  pub record CcnlRow : Type 0 where
    pub upper_ft_ccld_qty : Cell F
    pub lower_ft_ccld_qty : Cell F
    pub ccld_qty : Cell F

-- The methods that the check of unfilled orders calls; `can_cancel` and `can_inquire` are its `hasattr` tests.
pub record Adapter (fl : FloatOps) (OrderId S W : Type 0) : Type 0 where
  pub can_cancel : Bool
  pub can_inquire : Bool
  pub sleep : ℕ → W → W
  pub get_order_status : OrderId → W → Option Status × W
  pub cancel_order : OrderId → S → ℕ → Side → W → Option CancelStatus × W
  pub inquire_algo_ccnl : OrderId → W → Option (List (CcnlRow fl)) × W
