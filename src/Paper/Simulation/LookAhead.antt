-- ===== src/Paper/Simulation/LookAhead.antt =====
-- The whole simulation sees no row of a later day.
use pretrend_ai.Base.{
  ℕ, ◌≡◌, refl, ap, leb, leb→le, true, Option, none, some, List, [], ◌∷◌, All, ◌∙◌,
}
use pretrend_ai.Base.Float.{FloatOps}
use pretrend_ai.Backtest.Rebalancer.{Names, Config, PolicyRow}
use pretrend_ai.Paper.Simulation.{Settings, Exposure, Account, Prices, as_prices}
use pretrend_ai.Paper.Simulation.Day.{Trading, Gated, targets_of_day, trade_day}
use pretrend_ai.Paper.Simulation.Run.{
  run, step, turn, deposit, start, simulate_paper_execution, closed, close_day, policy_at, gated_of,
  trading_of, trading_with, action_effective, and_then,
}
use pretrend_ai.Paper.Simulation.PointInTime.{
  Later, IsAfter, IsAfter-le, extended, prices_same, policy_same, gated_of_same, targets_same,
  trade_day_same, deposit_same,
}

module _ (fl : FloatOps) (names : Names) (settings : Settings fl names)
    (later : Later fl names) where
  abbrev more : Settings fl names
  more = extended fl names settings later

  module _ (row : Exposure fl names) (after : IsAfter fl names row.trade_date later) where
    action_same :
        (prices : Prices fl names) (a : Account fl names)
        → action_effective fl names more row prices a.book
          ≡ action_effective fl names settings row prices a.book
    unfolding action_effective
    action_same prices a = refl

    closed_same :
        (prices : Prices fl names) (policy : Option PolicyRow) (gated : Gated fl names)
        (a : Account fl names) (o : Option (Trading fl names))
        → closed fl names more row.trade_date prices policy gated a o
          ≡ closed fl names settings row.trade_date prices policy gated a o
    unfolding close_day
    closed_same prices policy gated a none = refl
    closed_same prices policy gated a (some t) = refl

    trading_with_same :
        (prices : Prices fl names) (policy : Option PolicyRow) (config : Config fl names)
        (a : Account fl names)
        → trading_with fl names more row prices policy config a
          ≡ trading_with fl names settings row prices policy config a
    unfolding trading_with action_effective
    trading_with_same prices policy config a =
        let td = row.trade_date in
        let action = action_effective fl names settings row prices a.book in
        ap
          (λ target.
            trade_day fl names more prices target td action a.guard.paused a.staged_sell a.book)
          (targets_same fl names settings later td after row policy config prices refl)
        ∙ trade_day_same fl names settings later td after prices
            (targets_of_day fl names settings row policy config prices) action a.guard.paused
            a.staged_sell a.book

    trading_same :
        (prices : Prices fl names) (a : Account fl names)
        → trading_of fl names more row prices a ≡ trading_of fl names settings row prices a
    unfolding trading_of
    trading_same prices a =
        let td = row.trade_date in
        ap
          (λ policy.
            trading_with fl names more row prices policy (gated_of fl names more td a).config a)
          (policy_same fl names settings later td after)
        ∙ ap
            (λ (g : Gated fl names).
              trading_with fl names more row prices (policy_at fl names settings td) g.config a)
            (gated_of_same fl names settings later td after a)
        ∙ trading_with_same prices (policy_at fl names settings td)
            (gated_of fl names settings td a).config a

    turn_same :
        (prices : Prices fl names) (a : Account fl names)
        → turn fl names more row prices a ≡ turn fl names settings row prices a
    unfolding turn
    turn_same prices a =
        let td = row.trade_date in
        ap
          (λ policy.
            closed fl names more td prices policy (gated_of fl names more td a) a
              (trading_of fl names more row prices a))
          (policy_same fl names settings later td after)
        ∙ ap
            (λ g.
              closed fl names more td prices (policy_at fl names settings td) g a
                (trading_of fl names more row prices a))
            (gated_of_same fl names settings later td after a)
        ∙ ap
            (λ o.
              closed fl names more td prices (policy_at fl names settings td)
                (gated_of fl names settings td a) a o)
            (trading_same prices a)
        ∙ closed_same prices (policy_at fl names settings td) (gated_of fl names settings td a) a
            (trading_of fl names settings row prices a)

    step_same : (a : Account fl names) → step fl names more row a ≡ step fl names settings row a
    unfolding step
    step_same a =
        let from = deposit fl names more row.trade_date a in
        ap
          (λ (prices : Prices fl names). elim prices [
            | [] ↦ some a
            | p ∷ ps ↦ turn fl names more row (p ∷ ps) from
          ])
          (prices_same fl names settings later row.trade_date after)
        ∙ go (as_prices fl names settings.price_rows row.trade_date)
      where
        go :
            (prices : Prices fl names)
            → elim prices [
              | [] ↦ some a
              | p ∷ ps ↦ turn fl names more row (p ∷ ps) (deposit fl names more row.trade_date a)
            ]
              ≡ elim prices [
                | [] ↦ some a
                | p ∷ ps ↦
                    turn fl names settings row (p ∷ ps) (deposit fl names settings row.trade_date a)
              ]
        go [] = refl
        go (p ∷ ps) =
            ap (turn fl names more row (p ∷ ps))
              (deposit_same fl names settings later row.trade_date after a)
            ∙ turn_same (p ∷ ps) (deposit fl names settings row.trade_date a)

  run_same :
      (t : ℕ) (rows : List (Exposure fl names)) (a : Account fl names)
      → IsAfter fl names t later
      → All (λ (r : Exposure fl names). leb r.trade_date t ≡ true) rows
      → run fl names more rows a ≡ run fl names settings rows a
  unfolding run
  run_same t [] a after h = refl
  run_same t (row ∷ rows) a after h =
      let here = IsAfter-le fl names t row.trade_date later (leb→le row.trade_date t h.0) after in
      ap (λ o. and_then fl names o (run fl names more rows)) (step_same row here a)
      ∙ go (step fl names settings row a) (λ b. run_same t rows b after h.1)
    where
      go :
          (o : Option (Account fl names))
          → ((b : Account fl names) → run fl names more rows b ≡ run fl names settings rows b)
          → and_then fl names o (run fl names more rows)
            ≡ and_then fl names o (run fl names settings rows)
      go none f = refl
      go (some b) f = f b

  -- Rows of prices, policies, the universe, the next-step signal and the group transitions that are dated
  -- after the last day simulated change nothing in the result.
  pub simulation_no_look_ahead :
      (t : ℕ) (exposures : List (Exposure fl names))
      → IsAfter fl names t later
      → All (λ (r : Exposure fl names). leb r.trade_date t ≡ true) exposures
      → simulate_paper_execution fl names more exposures
        ≡ simulate_paper_execution fl names settings exposures
  unfolding simulate_paper_execution start
  simulation_no_look_ahead t exposures after h =
      run_same t exposures (start fl names settings) after h
