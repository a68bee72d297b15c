-- ===== src/Backtest/Tranche.antt =====
-- The staged sale and the weekly purchase of src/pretrend/pipeline/backtest/runner.py. The snapshot of the
-- positions that a sale walks through shows each position as it is at its turn, since a sale changes only
-- the position of its own symbol.
use pretrend_ai.Base.{ℕ, zero, suc, Option, none, some, List, [], ◌∷◌, ◌++◌, if◌then◌else◌}
use pretrend_ai.Base.Float.{FloatOps, fmin, fmax}
use pretrend_ai.Base.Dict.{get}
use pretrend_ai.Backtest.Portfolio.{
  Position, Portfolio, Trade, market_value, invested_value, total_value, buy, sell,
}
use pretrend_ai.Backtest.Rebalancer.{Names, Config, Weights, schd_min_hold_value, or_zero}

module _ (fl : FloatOps) (names : Names) where
  open fl use {F, lit, sub, mul, div, lt, le, eq}
  open names use {S, same_symbol, schd}

  pub record StagedSellPlan : Type 0 where
    pub total_sell_amount : F
    pub tranches : List F
    pub tranche_idx : ℕ
    pub signal_date : ℕ
    pub target_weights : Weights fl names

  unfoldable pub create_staged_sell :
      Portfolio fl S → F → List (S × F) → ℕ → Weights fl names → Option StagedSellPlan
  unfolding invested_value total_value
  create_staged_sell portfolio target_ratio prices signal_date target_weights =
      let target_invested = mul (total_value fl S same_symbol portfolio prices) target_ratio in
      let sell_amount =
        fmax fl (sub (invested_value fl S same_symbol portfolio prices) target_invested)
          (lit 0 1) in
      if lt sell_amount (lit 1 2)
      then none
      else some (record {
        total_sell_amount = sell_amount;
        tranches = lit 50 2 ∷ lit 30 2 ∷ lit 20 2 ∷ [];
        tranche_idx = 0;
        signal_date = signal_date;
        target_weights = target_weights;
      })

  -- The trades so far, and the portfolio.
  abbrev pub Traded : Type 0
  Traded = List (Trade fl S) × Portfolio fl S

  abbrev pub with_trade : List (Trade fl S) → Option (Trade fl S) × Portfolio fl S → Traded
  with_trade trades (none, p) = (trades, p)
  with_trade trades (some t, p) = (trades ++ (t ∷ []), p)

  -- What may be sold of a symbol; `none` where the sale is skipped.
  abbrev pub schd_limit : Config fl names → F → S → F → F → Option F
  schd_limit config schd_min_hold symbol value amount =
      if same_symbol symbol schd
      then (if lt (lit 0 1) config.schd_min_weight
          then some (fmin fl amount (fmax fl (sub value schd_min_hold) (lit 0 1)))
          else if config.schd_sell_locked
          then none
          else some amount)
      else some amount

  abbrev pub over_target : Weights fl names → F → S → F → F
  over_target weights target_invested_after symbol value =
      fmax fl
        (sub value (mul target_invested_after (or_zero fl names (get same_symbol symbol weights))))
        (lit 0 1)

  -- `a / b`; `none` is the ZeroDivisionError
  abbrev pub divided : F → F → Option F
  divided a b = if eq b (lit 0 0) then none else some (div a b)

  abbrev pub times : F → Option F → Option F
  times a none = none
  times a (some b) = some (mul a b)

  -- over the target where there are target weights, and in proportion otherwise
  abbrev pub amount_to_sell : Weights fl names → F → F → S → F → Option F
  amount_to_sell [] total_invested sell_amount symbol value =
      times sell_amount (divided value total_invested)
  amount_to_sell (w ∷ weights) total_invested sell_amount symbol value =
      some (over_target (w ∷ weights) (sub total_invested sell_amount) symbol value)

  abbrev pub sell_limited : ℕ → S → F → Option F → Traded → Traded
  sell_limited day symbol price none t = t
  sell_limited day symbol price (some amount) t =
      if lt amount (lit 1 2)
      then t
      else with_trade t.0 (sell fl S same_symbol symbol amount price day t.1)

  -- The plan's sizes, which the loop over the positions reads.
  pub record Share : Type 0 where
    pub total_invested : F
    pub sell_amount : F
    pub schd_min_hold : F

  abbrev pub sell_valued :
      Config fl names → Share → ℕ → S → F → F → Option F → Traded → Option Traded
  sell_valued config share day symbol price value none t = none
  sell_valued config share day symbol price value (some amount) t =
      some (
        sell_limited day symbol price (schd_limit config share.schd_min_hold symbol value amount) t)

  -- One position and its price.
  abbrev pub sell_position :
      Config fl names
      → Weights fl names
      → Share
      → ℕ
      → S
      → Position fl
      → Option F
      → Traded
      → Option Traded
  sell_position config weights share day symbol pos none t = some t
  sell_position config weights share day symbol pos (some price) t =
      let value = market_value fl S same_symbol pos price in
      if le pos.shares (lit 0 0)
      then some t
      else sell_valued config share day symbol price value
          (amount_to_sell weights share.total_invested share.sell_amount symbol value) t

  abbrev pub and_then : Option Traded → (Traded → Option Traded) → Option Traded
  and_then none f = none
  and_then (some t) f = f t

  unfoldable pub sell_positions :
      Config fl names
      → Weights fl names
      → Share
      → ℕ
      → List (S × F)
      → List (S × Position fl)
      → Traded
      → Option Traded
  unfolding sell
  sell_positions config weights share day prices [] t = some t
  sell_positions config weights share day prices ((symbol, pos) ∷ rest) t =
      and_then (sell_position config weights share day symbol pos (get same_symbol symbol prices) t)
        (sell_positions config weights share day prices rest)

  abbrev pub nth : List F → ℕ → Option F
  nth [] n = none
  nth (x ∷ xs) zero = some x
  nth (x ∷ xs) (suc n) = nth xs n

  abbrev pub share_of : Portfolio fl S → StagedSellPlan → List (S × F) → Config fl names → F → Share
  share_of portfolio plan prices config tranche_ratio = record {
    total_invested = invested_value fl S same_symbol portfolio prices;
    sell_amount = mul plan.total_sell_amount tranche_ratio;
    schd_min_hold = schd_min_hold_value fl names portfolio prices config;
  }

  abbrev pub sell_share :
      Portfolio fl S → StagedSellPlan → List (S × F) → ℕ → Config fl names → Share → Option Traded
  sell_share portfolio plan prices day config share =
      if le share.total_invested (lit 0 0)
      then some ([], portfolio)
      else if le share.sell_amount (lit 0 0)
      then some ([], portfolio)
      else sell_positions config plan.target_weights share day prices portfolio.positions
          ([], portfolio)

  abbrev pub at_ratio : (F → Option Traded) → Option F → Option Traded
  at_ratio f none = none
  at_ratio f (some ratio) = f ratio

  -- `none` is the IndexError of a plan that has no tranche left, or a ZeroDivisionError.
  unfoldable pub execute_sell_tranche :
      Portfolio fl S → StagedSellPlan → List (S × F) → ℕ → Config fl names → Option Traded
  unfolding invested_value schd_min_hold_value sell_positions
  execute_sell_tranche portfolio plan prices day config =
      at_ratio
        (λ ratio.
          sell_share portfolio plan prices day config (share_of portfolio plan prices config ratio))
        (nth plan.tranches plan.tranche_idx)

  abbrev pub buy_weight : F → ℕ → S → F → F → Traded → Traded
  buy_weight cash day symbol w price t =
      if le price (lit 0 0)
      then t
      else if lt (mul cash w) (lit 1 2)
      then t
      else with_trade t.0 (buy fl S same_symbol symbol (mul cash w) price day t.1)

  unfoldable pub buy_weights : F → ℕ → List (S × F) → Weights fl names → Traded → Traded
  unfolding buy
  buy_weights cash day prices [] t = t
  buy_weights cash day prices ((symbol, w) ∷ rest) t =
      buy_weights cash day prices rest
        (buy_weight cash day symbol w (or_zero fl names (get same_symbol symbol prices)) t)

  unfoldable pub execute_weekly_buy : Portfolio fl S → Weights fl names → List (S × F) → ℕ → Traded
  unfolding buy_weights
  execute_weekly_buy portfolio weights prices day =
      if lt portfolio.cash (lit 1 2)
      then ([], portfolio)
      else buy_weights portfolio.cash day prices weights ([], portfolio)
