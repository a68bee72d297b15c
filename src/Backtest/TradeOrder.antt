-- ===== src/Backtest/TradeOrder.antt =====
-- The order of a rebalancing's trades.
use pretrend_ai.Base.{
  ℕ, Bool, true, false, ◌≡◌, refl, Option, none, some, List, [], ◌∷◌, ◌++◌, map, All, append-All,
  if◌then◌else◌, ◌||◌,
}
use pretrend_ai.Base.Float.{FloatOps, fmin}
use pretrend_ai.Base.Dict.{get}
use pretrend_ai.Backtest.Portfolio.{
  Position, Portfolio, Trade, Side, bought, sold, buy, sell, sell_found,
}
use pretrend_ai.Backtest.Rebalance.{
  Plan, Target, Step, append_trade, exit_at, sell_exits, sell_reductions, buy_targets, run_plan,
  rebalance_to_weights, target_amounts,
}

module _ (fl : FloatOps) (S : Type 0) (eqb : S → S → Bool) where
  open fl use {F, lit, le}

  -- A trade of the given side, on the given day.
  abbrev pub Of : Side → ℕ → Trade fl S → Type 0
  Of side day t = (t.action ≡ side) × (t.trade_date ≡ day)

  abbrev OfStep : Side → ℕ → Option (Trade fl S) → Type 0
  OfStep side day none = Unit
  OfStep side day (some t) = Of side day t

  unfoldable StepOf : Side → ℕ → Step fl S eqb → Type 0
  StepOf side day step = OfStep side day step.0

  nothing : (side : Side) (day : ℕ) (p : Portfolio fl S) → StepOf side day (none, p)
  unfolding StepOf
  nothing side day p = tt

  choose :
      (side : Side) (day : ℕ) (c : Bool) (x y : Step fl S eqb)
      → StepOf side day x
      → StepOf side day y
      → StepOf side day (if c then x else y)
  choose side day true x y h k = h
  choose side day false x y h k = k

  append_trade-Of :
      (side : Side) (day : ℕ) (step : Step fl S eqb) (ts : List (Trade fl S))
      → StepOf side day step
      → All (Of side day) ts
      → All (Of side day) (append_trade fl S eqb step.0 ts)
  unfolding StepOf
  append_trade-Of side day (none, p) ts h k = k
  append_trade-Of side day (some t, p) ts h k = (h, k)

  buy-Of :
      (symbol : S) (wanted price : F) (day : ℕ) (p : Portfolio fl S)
      → StepOf bought day (buy fl S eqb symbol wanted price day p)
  unfolding buy StepOf
  buy-Of symbol wanted price day p =
      let amount = fmin fl wanted p.cash in
      choose bought day (le wanted (lit 0 0) || le price (lit 0 0)) (none, p) _ tt
        (choose bought day (le amount (lit 0 0)) (none, p) _ tt (refl, refl))

  sell_found-Of :
      (symbol : S) (wanted price : F) (day : ℕ) (p : Portfolio fl S) (o : Option (Position fl))
      → StepOf sold day (sell_found fl S eqb symbol wanted price day p o)
  unfolding StepOf
  sell_found-Of symbol wanted price day p none = tt
  sell_found-Of symbol wanted price day p (some pos) =
      choose sold day (le pos.shares (lit 0 0) || le price (lit 0 0)) (none, p) _ tt
        (choose sold day (le wanted (lit 0 0)) (none, p) _ tt (refl, refl))

  sell-Of :
      (symbol : S) (wanted price : F) (day : ℕ) (p : Portfolio fl S)
      → StepOf sold day (sell fl S eqb symbol wanted price day p)
  unfolding sell
  sell-Of symbol wanted price day p =
      sell_found-Of symbol wanted price day p (get eqb symbol p.positions)

  exit_at-Of :
      (plan : Plan fl S eqb) (symbol : S) (o : Option F) (p : Portfolio fl S)
      → StepOf sold plan.day (exit_at fl S eqb plan symbol o p)
  exit_at-Of plan symbol none p = nothing sold plan.day p
  exit_at-Of plan symbol (some price) p =
      choose sold plan.day _ _ _ (sell-Of symbol _ price plan.day p) (nothing sold plan.day p)

  exits-Of :
      (plan : Plan fl S eqb) (syms : List S) (p : Portfolio fl S)
      → All (Of sold plan.day) (sell_exits fl S eqb plan syms p).0
  unfolding sell_exits
  exits-Of plan [] p = tt
  exits-Of plan (symbol ∷ syms) p =
      append_trade-Of sold plan.day _ _ (exit_at-Of plan symbol (get eqb symbol plan.prices) p)
        (exits-Of plan syms _)

  reductions-Of :
      (plan : Plan fl S eqb) (targets : List (Target fl S eqb)) (p : Portfolio fl S)
      → All (Of sold plan.day) (sell_reductions fl S eqb plan targets p).0
  unfolding sell_reductions
  reductions-Of plan [] p = tt
  reductions-Of plan (t ∷ ts) p =
      append_trade-Of sold plan.day _ _
        (choose sold plan.day _ _ _ (sell-Of t.symbol _ t.price plan.day p) (nothing _ plan.day p))
        (reductions-Of plan ts _)

  buys-Of :
      (plan : Plan fl S eqb) (targets : List (Target fl S eqb)) (p : Portfolio fl S)
      → All (Of bought plan.day) (buy_targets fl S eqb plan targets p).0
  unfolding buy_targets
  buys-Of plan [] p = tt
  buys-Of plan (t ∷ ts) p =
      append_trade-Of bought plan.day _ _
        (choose bought plan.day _ _ _ (buy-Of t.symbol _ t.price plan.day p) (nothing _ plan.day p))
        (buys-Of plan ts _)

  -- The trades are sales, then purchases, and each is dated.
  unfoldable pub SalesFirst : ℕ → List (Trade fl S) → Type 0
  SalesFirst day ts =
      (sales : List (Trade fl S)) × (purchases : List (Trade fl S)) × (ts ≡ sales ++ purchases)
      × All (Of sold day) sales
      × All (Of bought day) purchases

  run_plan-SalesFirst :
      (plan : Plan fl S eqb) (targets : List (Target fl S eqb)) (p : Portfolio fl S)
      → SalesFirst plan.day (run_plan fl S eqb plan targets p).0
  unfolding run_plan SalesFirst
  run_plan-SalesFirst plan targets p =
      let exits = sell_exits fl S eqb plan (map (λ e. e.0) p.positions) p in
      let reductions = sell_reductions fl S eqb plan targets exits.1 in
      let buys = buy_targets fl S eqb plan targets reductions.1 in
      (
        exits.0 ++ reductions.0,
        buys.0,
        refl,
        append-All (Of sold plan.day) exits.0 reductions.0
            (exits-Of plan (map (λ e. e.0) p.positions) p) (reductions-Of plan targets exits.1),
        buys-Of plan targets reductions.1,
      )

  -- A rebalancing returns its sales before its purchases, all of them dated with its day.
  pub rebalance_sells_first :
      (weights prices : List (S × F)) (invested : F) (day : ℕ) (min_hold : List (S × F))
      (p : Portfolio fl S)
      → SalesFirst day (rebalance_to_weights fl S eqb weights prices invested day min_hold p).0
  unfolding rebalance_to_weights
  rebalance_sells_first weights prices invested day min_hold p =
      run_plan-SalesFirst _ (target_amounts fl S eqb weights prices invested) p
