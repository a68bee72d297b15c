-- ===== src/Paper/Simulation/Total.antt =====
-- The simulation ends with a result: the weights it rebalances to have prices.
use pretrend_ai.Base.{
  ℕ, Bool, true, false, ◌≡◌, refl, ◌&&◌, not, Option, none, some, List, [], ◌∷◌, is_some, if_cases,
}
use pretrend_ai.Base.Float.{FloatOps}
use pretrend_ai.Strategy.Allocation.{Action}
use pretrend_ai.Backtest.Portfolio.{Portfolio, total_value}
use pretrend_ai.Backtest.Rebalancer.{Names, PolicyRow, Weights}
use pretrend_ai.Paper.Rebalance.{Outcome}
use pretrend_ai.Paper.Priced.{rebalance-fine}
use pretrend_ai.Paper.Simulation.{
  is_monday, is_tuesday, is_friday, Settings, Exposure, StagedSell, Account, Prices, as_prices,
}
use pretrend_ai.Paper.Simulation.Day.{
  Trading, Gated, targets_of_day, idle, traded, rebalance_day, trade_day, plan_of_friday,
  sell_tranche, follow_plan, is_increase, is_decrease, nth, lock_symbols,
}
use pretrend_ai.Paper.Simulation.PricedTargets.{AllPriced, targets-priced}
use pretrend_ai.Paper.Simulation.Run.{
  run, step, turn, deposit, start, simulate_paper_execution, closed, policy_at, gated_of,
  trading_of, trading_with, trading_with, action_effective, and_then,
}

module _ (fl : FloatOps) (names : Names) (settings : Settings fl names) where
  open fl use {F, lit, lt, le}
  open names use {S, same_symbol, schd}

  Ends : Option (Trading fl names) → Type 0
  Ends o = is_some o ≡ true

  traded-Ends :
      (plan : Option (StagedSell fl names)) (out : Outcome fl S)
      → out.failed ≡ false
      → Ends (traded fl names plan out)
  unfolding Ends
  traded-Ends plan out h = rw h refl

  rebalance-Ends :
      (prices : Prices fl names) (ratio : F) (weights : Weights fl names) (td : ℕ)
      (allow_sell allow_buy : Bool) (book : Portfolio fl S) (plan : Option (StagedSell fl names))
      → AllPriced fl names settings prices weights
      → Ends (
          traded fl names plan
            (rebalance_day fl names settings prices ratio weights td allow_sell allow_buy book))
  unfolding rebalance_day AllPriced
  rebalance-Ends prices ratio weights td allow_sell allow_buy book plan h = traded-Ends plan _ (
      rebalance-fine fl S same_symbol prices ratio weights td allow_sell allow_buy
        (lock_symbols fl names settings.schd_sell_locked) (λ s. same_symbol s schd)
        settings.schd_min_weight (total_value fl S same_symbol book prices) book h)

  tranche-Ends :
      (prices : Prices fl names) (weights : Weights fl names) (td : ℕ) (book : Portfolio fl S)
      (plan : StagedSell fl names) (tranche : Option F)
      → AllPriced fl names settings prices weights
      → Ends (sell_tranche fl names settings prices weights td book plan tranche)
  unfolding Ends
  tranche-Ends prices weights td book plan none h = refl
  tranche-Ends prices weights td book plan (some tranche) h =
      rebalance-Ends prices _ weights td true false book _ h

  plan-Ends :
      (prices : Prices fl names) (weights : Weights fl names) (td : ℕ) (book : Portfolio fl S)
      (plan : Option (StagedSell fl names))
      → AllPriced fl names settings prices weights
      → Ends (follow_plan fl names settings prices weights td book plan)
  unfolding Ends
  plan-Ends prices weights td book none h = refl
  plan-Ends prices weights td book (some plan) h =
      tranche-Ends prices weights td book plan (nth fl names plan.tranches plan.tranche_idx) h

  idle-Ends :
      (book : Portfolio fl S) (plan : Option (StagedSell fl names)) → Ends (idle fl names book plan)
  unfolding Ends
  idle-Ends book plan = refl

  trade_day-Ends :
      (prices : Prices fl names) (ratio : F) (weights : Weights fl names) (td : ℕ) (action : Action)
      (paused : Bool) (plan : Option (StagedSell fl names)) (book : Portfolio fl S)
      → AllPriced fl names settings prices weights
      → Ends (trade_day fl names settings prices (ratio, weights) td action paused plan book)
  unfolding trade_day
  trade_day-Ends prices ratio weights td action paused plan book h =
      if_cases Ends (is_monday td) _ _ (λ e. idle-Ends book _)
        (λ e.
          if_cases Ends (is_tuesday td && (is_increase action && not paused)) _ _
            (λ t. rebalance-Ends prices ratio weights td false true book plan h)
            (λ t.
              if_cases Ends (is_friday td) _ _
                (λ f.
                  if_cases Ends (is_decrease action) _ _
                    (λ d.
                      plan-Ends prices weights td book
                        (plan_of_friday fl names settings prices ratio book plan) h)
                    (λ d. idle-Ends book none))
                (λ f. idle-Ends book plan)))

  trading-Ends :
      (row : Exposure fl names) (prices : Prices fl names) (a : Account fl names)
      → Ends (trading_of fl names settings row prices a)
  unfolding trading_of trading_with
  trading-Ends row prices a =
      let td = row.trade_date in
      let config = (gated_of fl names settings td a).config in
      let policy = policy_at fl names settings td in
      let target = targets_of_day fl names settings row policy config prices in
      trade_day-Ends prices target.0 target.1 td
        (action_effective fl names settings row prices a.book) a.guard.paused a.staged_sell a.book
        (targets-priced fl names settings row policy config prices)

  closed-some :
      (td : ℕ) (prices : Prices fl names) (policy : Option PolicyRow) (gated : Gated fl names)
      (a : Account fl names) (o : Option (Trading fl names))
      → Ends o
      → is_some (closed fl names settings td prices policy gated a o) ≡ true
  unfolding Ends
  closed-some td prices policy gated a none h = h
  closed-some td prices policy gated a (some t) h = refl

  pub step-some :
      (row : Exposure fl names) (a : Account fl names)
      → is_some (step fl names settings row a) ≡ true
  unfolding step turn
  step-some row a = go (as_prices fl names settings.price_rows row.trade_date)
    where
      b : Account fl names
      b = deposit fl names settings row.trade_date a

      go :
          (prices : Prices fl names)
          → is_some (elim prices [ [] ↦ some a | p ∷ ps ↦ turn fl names settings row (p ∷ ps) b ])
            ≡ true
      go [] = refl
      go (p ∷ ps) =
          closed-some row.trade_date (p ∷ ps) (policy_at fl names settings row.trade_date)
            (gated_of fl names settings row.trade_date b) b
            (trading_of fl names settings row (p ∷ ps) b) (trading-Ends row (p ∷ ps) b)

  and_then-some :
      (o : Option (Account fl names)) (f : Account fl names → Option (Account fl names))
      → is_some o ≡ true
      → ((b : Account fl names) → is_some (f b) ≡ true)
      → is_some (and_then fl names o f) ≡ true
  and_then-some none f h k = h
  and_then-some (some b) f h k = k b

  run-some :
      (rows : List (Exposure fl names)) (a : Account fl names)
      → is_some (run fl names settings rows a) ≡ true
  unfolding run
  run-some [] a = refl
  run-some (row ∷ rows) a =
      and_then-some (step fl names settings row a) (run fl names settings rows) (step-some row a)
        (run-some rows)

  -- The simulation gives a result on every input: no missing price interrupts it.
  pub simulation_ends :
      (exposures : List (Exposure fl names))
      → is_some (simulate_paper_execution fl names settings exposures) ≡ true
  unfolding simulate_paper_execution
  simulation_ends exposures = run-some exposures (start fl names settings)
