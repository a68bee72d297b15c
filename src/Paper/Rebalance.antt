-- ===== src/Paper/Rebalance.antt =====
-- src/pretrend/pipeline/paper/execution.py: `_rebalance_to_target`. The portfolio is changed in place, so a
-- missing price (KeyError) leaves the trades made before it: an outcome carries a flag for the failure.
use pretrend_ai.Base.{
  ℕ, Bool, true, false, ◌&&◌, not, Option, none, some, List, [], ◌∷◌, ◌++◌, any, if◌then◌else◌,
}
use pretrend_ai.Base.Float.{FloatOps, fmin, fmax}
use pretrend_ai.Base.Dict.{get, has}
use pretrend_ai.Backtest.Portfolio.{
  Position, Portfolio, Trade, buy, sell, market_value, total_value,
}

module _ (fl : FloatOps) (S : Type 0) where
  open fl use {F}

  -- What one symbol's turn leaves.
  pub record Turn : Type 0 where
    pub failed : Bool
    pub trade : Option (Trade fl S)
    pub book : Portfolio fl S

  pub record Outcome : Type 0 where
    pub failed : Bool
    pub trades : List (Trade fl S)
    pub book : Portfolio fl S

  abbrev pub skip : Portfolio fl S → Turn
  skip p = record { failed = false; trade = none; book = p }

  abbrev pub key_error : Portfolio fl S → Turn
  key_error p = record { failed = true; trade = none; book = p }

  abbrev pub done : Option (Trade fl S) × Portfolio fl S → Turn
  done (t, p) = record { failed = false; trade = t; book = p }

  abbrev pub add_trade : Option (Trade fl S) → List (Trade fl S) → List (Trade fl S)
  add_trade none ts = ts
  add_trade (some t) ts = t ∷ ts

  -- a loop over symbols, which an exception ends
  unfoldable pub run_loop :
      {T : Type 0} → (T → Portfolio fl S → Turn) → List T → Portfolio fl S → Outcome
  run_loop body [] p = record { failed = false; trades = []; book = p }
  run_loop body (t ∷ ts) p =
      let turn = body t p in
      let rest = run_loop body ts turn.book in
      if turn.failed then record { failed = true; trades = []; book = turn.book } else record {
        failed = rest.failed;
        trades = add_trade turn.trade rest.trades;
        book = rest.book;
      }

  unfoldable pub and_then : Outcome → (Portfolio fl S → Outcome) → Outcome
  and_then first next =
      let second = next first.book in
      if first.failed then first else record {
        failed = second.failed;
        trades = first.trades ++ second.trades;
        book = second.book;
      }

  -- The arguments that do not change; `is_schd` is `sym == "SCHD"`.
  pub record Terms : Type 0 where
    pub prices : List (S × F)
    pub targets : List (S × F)
    pub locked : List S
    pub is_schd : S → Bool
    pub schd_min_weight : F
    pub nav_for_floor : F
    pub day : ℕ

module _ (fl : FloatOps) (S : Type 0) (eqb : S → S → Bool) where
  open fl use {F, lit, add, sub, mul, lt, le}

  abbrev pub is_locked : Terms fl S → S → Bool
  is_locked terms sym = any (λ l. eqb l sym) terms.locked

  -- the amount that the floor of SCHD leaves to sell
  abbrev pub floored : Terms fl S → S → F → F → F → F
  floored terms sym price wanted cur =
      let floor_usd = mul terms.nav_for_floor terms.schd_min_weight in
      if terms.is_schd sym
        && (lt (lit 0 0) terms.schd_min_weight
            && (lt (lit 0 0) terms.nav_for_floor && lt (lit 0 0) price))
      then fmin fl wanted (fmax fl (lit 0 1) (sub cur floor_usd))
      else wanted

  abbrev pub sell_above_cent : Terms fl S → S → F → F → Portfolio fl S → Turn fl S
  sell_above_cent terms sym amount price p =
      if le amount (lit 1 2)
      then skip fl S p
      else done fl S (sell fl S eqb sym amount price terms.day p)

  -- a symbol of `current_amounts` with its price and its amount
  pub record Holding : Type 0 where
    pub symbol : S
    pub price : F
    pub amount : F

  abbrev pub with_holding : S → Position fl → Option F → List Holding → List Holding
  with_holding sym p none rest = rest
  with_holding sym p (some price) rest =
      if lt (lit 0 0) p.shares
      then record { symbol = sym; price = price; amount = market_value fl S eqb p price } ∷ rest
      else rest

  unfoldable pub holdings : List (S × Position fl) → List (S × F) → List Holding
  holdings [] prices = []
  holdings ((sym, p) ∷ rest) prices = with_holding sym p (get eqb sym prices) (holdings rest prices)

  unfoldable pub exit_turn : Terms fl S → Holding → Portfolio fl S → Turn fl S
  exit_turn terms h p =
      if not (has eqb h.symbol terms.targets)
        && (not (is_locked terms h.symbol) && lt (lit 0 0) h.amount)
      then sell_above_cent terms h.symbol (floored terms h.symbol h.price h.amount h.amount) h.price
          p
      else skip fl S p

  -- `cur.market_value(prices[sym]) if cur and sym in prices else 0.0`
  abbrev pub amount_now : Option (Position fl) → Option F → F
  amount_now none price = lit 0 1
  amount_now (some p) none = lit 0 1
  amount_now (some p) (some price) = market_value fl S eqb p price

  abbrev pub reduce_at : Terms fl S → S → F → F → Option F → Portfolio fl S → Turn fl S
  reduce_at terms sym target cur none p =
      if le (sub cur target) (lit 1 2) then skip fl S p else key_error fl S p
  reduce_at terms sym target cur (some price) p =
      sell_above_cent terms sym (floored terms sym price (sub cur target) cur) price p

  unfoldable pub reduce_turn : Terms fl S → S × F → Portfolio fl S → Turn fl S
  reduce_turn terms (sym, target) p =
      let price = get eqb sym terms.prices in
      let cur = amount_now (get eqb sym p.positions) price in
      if is_locked terms sym
      then skip fl S p
      else if lt (add target (lit 1 2)) cur
      then reduce_at terms sym target cur price p
      else skip fl S p

  abbrev pub buy_at : Terms fl S → S → F → Option F → Portfolio fl S → Turn fl S
  buy_at terms sym amount none p = key_error fl S p
  buy_at terms sym amount (some price) p = done fl S (buy fl S eqb sym amount price terms.day p)

  unfoldable pub buy_turn : Terms fl S → S × F → Portfolio fl S → Turn fl S
  buy_turn terms (sym, target) p =
      let price = get eqb sym terms.prices in
      let cur = amount_now (get eqb sym p.positions) price in
      if lt (add cur (lit 1 2)) target
      then buy_at terms sym (sub target cur) price p
      else skip fl S p

  abbrev pub nothing : Portfolio fl S → Outcome fl S
  nothing p = record { failed = false; trades = []; book = p }

  -- the two passes of sales, and the pass of purchases
  unfoldable pub sell_passes : Terms fl S → List Holding → Bool → Portfolio fl S → Outcome fl S
  unfolding run_loop and_then exit_turn reduce_turn
  sell_passes terms held allow_sell p =
      if allow_sell
      then and_then fl S (run_loop fl S (exit_turn terms) held p)
          (run_loop fl S (reduce_turn terms) terms.targets)
      else nothing p

  unfoldable pub buy_pass : Terms fl S → Bool → Portfolio fl S → Outcome fl S
  unfolding run_loop buy_turn
  buy_pass terms allow_buy p =
      if allow_buy then run_loop fl S (buy_turn terms) terms.targets p else nothing p

  -- the passes on given terms and holdings
  unfoldable pub run_passes :
      Terms fl S → List Holding → Bool → Bool → Portfolio fl S → Outcome fl S
  unfolding and_then sell_passes buy_pass
  run_passes terms held allow_sell allow_buy p =
      and_then fl S (sell_passes terms held allow_sell p) (buy_pass terms allow_buy)

  abbrev pub scaled : F → List (S × F) → List (S × F)
  scaled invested [] = []
  scaled invested ((sym, w) ∷ ws) = (sym, mul invested w) ∷ scaled invested ws

  abbrev pub terms_of :
      List (S × F)
      → F
      → List (S × F)
      → ℕ
      → List S
      → (S → Bool)
      → F
      → F
      → Portfolio fl S
      → Terms fl S
  terms_of prices target_ratio weights day locked is_schd schd_min_weight nav p = record {
    prices = prices;
    targets =
        scaled
          (mul (fmax fl (lit 0 1) (fmin fl (lit 10 1) target_ratio))
            (total_value fl S eqb p prices))
          weights;
    locked = locked;
    is_schd = is_schd;
    schd_min_weight = schd_min_weight;
    nav_for_floor = nav;
    day = day;
  }

  unfoldable pub rebalance_to_target :
      List (S × F)
      → F
      → List (S × F)
      → ℕ
      → Bool
      → Bool
      → List S
      → (S → Bool)
      → F
      → F
      → Portfolio fl S
      → Outcome fl S
  unfolding run_passes holdings total_value
  rebalance_to_target prices target_ratio weights day allow_sell allow_buy locked is_schd
        schd_min_weight nav p =
      run_passes (terms_of prices target_ratio weights day locked is_schd schd_min_weight nav p)
        (holdings p.positions prices) allow_sell allow_buy p
