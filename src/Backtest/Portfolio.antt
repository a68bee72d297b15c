-- ===== src/Backtest/Portfolio.antt =====
-- src/pretrend/pipeline/backtest/portfolio.py: the cash and the positions, `buy`, `sell` and
-- `rebalance_to_weights`. A method returns its value with the portfolio as it leaves it.
use pretrend_ai.Base.{ℕ, Bool, ◌||◌, Option, none, some, List, [], ◌∷◌, if◌then◌else◌}
use pretrend_ai.Base.Float.{FloatOps, fmin}
use pretrend_ai.Base.Dict.{get, put}

pub data Side : Type 0 where
  bought sold : Side

module _ (fl : FloatOps) where
  open fl use {F, lit}

  pub record Position : Type 0 where
    pub shares : F
    pub avg_cost : F

  abbrev pub new_position : Position
  new_position = record { shares = lit 0 1; avg_cost = lit 0 1 }

module _ (fl : FloatOps) (S : Type 0) where
  open fl use {F}

  pub record Trade : Type 0 where
    pub trade_date : ℕ
    pub symbol : S
    pub action : Side
    pub shares : F
    pub price : F
    pub amount : F

  pub record Portfolio : Type 0 where
    pub cash : F
    pub positions : List (S × Position fl)

module _ (fl : FloatOps) (S : Type 0) (eqb : S → S → Bool) where
  open fl use {F, lit, add, sub, mul, div, lt, le}

  abbrev pub market_value : Position fl → F → F
  market_value pos price = mul pos.shares price

  abbrev pub with_value : F → Position fl → Option F → F
  with_value total pos none = total
  with_value total pos (some price) = add total (market_value pos price)

  -- the sum over the positions that have a price, from the first to the last
  unfoldable pub sum_values : F → List (S × Position fl) → List (S × F) → F
  sum_values total [] prices = total
  sum_values total ((sym, pos) ∷ rest) prices =
      sum_values (with_value total pos (get eqb sym prices)) rest prices

  unfoldable pub invested_value : Portfolio fl S → List (S × F) → F
  unfolding sum_values
  invested_value p prices = sum_values (lit 0 0) p.positions prices

  unfoldable pub total_value : Portfolio fl S → List (S × F) → F
  unfolding sum_values
  total_value p prices = add p.cash (sum_values (lit 0 0) p.positions prices)

  unfoldable pub invested_ratio : Portfolio fl S → List (S × F) → F
  unfolding invested_value total_value
  invested_ratio p prices =
      if le (total_value p prices) (lit 0 0)
      then lit 0 1
      else div (invested_value p prices) (total_value p prices)

  unfoldable pub add_cash : F → Portfolio fl S → Portfolio fl S
  add_cash amount p =
      if lt (lit 0 0) amount
      then record { cash = add p.cash amount; positions = p.positions }
      else p

  abbrev pub or_new : Option (Position fl) → Position fl
  or_new none = new_position fl
  or_new (some pos) = pos

  -- the position after `amount` was spent on it
  abbrev pub grown : Position fl → F → F → Position fl
  grown pos amount price =
      let total_cost = add (mul pos.shares pos.avg_cost) amount in
      let now = add pos.shares (div amount price) in
      record { shares = now; avg_cost = if lt (lit 0 0) now then div total_cost now else lit 0 1 }

  unfoldable pub buy : S → F → F → ℕ → Portfolio fl S → Option (Trade fl S) × Portfolio fl S
  buy symbol wanted price day p =
      let amount = fmin fl wanted p.cash in
      if le wanted (lit 0 0) || le price (lit 0 0)
      then (none, p)
      else if le amount (lit 0 0)
      then (none, p)
      else (
        some (record {
          trade_date = day;
          symbol = symbol;
          action = bought;
          shares = div amount price;
          price = price;
          amount = amount;
        }),
        record {
          cash = sub p.cash amount;
          positions =
              put eqb symbol (grown (or_new (get eqb symbol p.positions)) amount price) p.positions;
        },
      )

  -- the position after shares were taken from it; a remainder under 1e-10 is dust
  abbrev pub shrunk : Position fl → F → Position fl
  shrunk pos shares =
      let rest = sub pos.shares shares in
      record { shares = if lt rest (lit 1 10) then lit 0 1 else rest; avg_cost = pos.avg_cost }

  abbrev pub sell_held :
      S → F → F → ℕ → Portfolio fl S → Position fl → Option (Trade fl S) × Portfolio fl S
  sell_held symbol wanted price day p pos =
      let amount = fmin fl wanted (market_value pos price) in
      if le pos.shares (lit 0 0) || le price (lit 0 0)
      then (none, p)
      else if le wanted (lit 0 0)
      then (none, p)
      else (
        some (record {
          trade_date = day;
          symbol = symbol;
          action = sold;
          shares = div amount price;
          price = price;
          amount = amount;
        }),
        record {
          cash = add p.cash amount;
          positions = put eqb symbol (shrunk pos (div amount price)) p.positions;
        },
      )

  abbrev pub sell_found :
      S → F → F → ℕ → Portfolio fl S → Option (Position fl) → Option (Trade fl S) × Portfolio fl S
  sell_found symbol wanted price day p none = (none, p)
  sell_found symbol wanted price day p (some pos) = sell_held symbol wanted price day p pos

  unfoldable pub sell : S → F → F → ℕ → Portfolio fl S → Option (Trade fl S) × Portfolio fl S
  sell symbol wanted price day p = sell_found symbol wanted price day p (get eqb symbol p.positions)
