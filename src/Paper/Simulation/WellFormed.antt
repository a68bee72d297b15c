-- ===== src/Paper/Simulation/WellFormed.antt =====
-- The invariant of the account that the simulation keeps.
use pretrend_ai.Base.{
  ℕ, ◌+◌, ◌<◌, ltb, Bool, true, ◌≡◌, refl, ◌&&◌, not, Option, none, some, List, [], ◌∷◌, ◌++◌, sym,
  lt→ltb, is_some, length, if_cases, arith,
}
use pretrend_ai.Base.Float.{FloatOps}
use pretrend_ai.Strategy.Allocation.{Action}
use pretrend_ai.Backtest.Portfolio.{Portfolio}
use pretrend_ai.Backtest.Rebalancer.{Names, PolicyRow, Weights, is_first_of_month}
use pretrend_ai.Paper.Rebalance.{Outcome}
use pretrend_ai.Paper.Simulation.{
  is_monday, is_tuesday, is_friday, Settings, Exposure, StagedSell, Account, Prices,
}
use pretrend_ai.Paper.Simulation.Day.{
  Trading, Gated, traded, trade_day, plan_of_friday, sell_tranche, follow_plan, advance,
  is_increase, is_decrease, nth, targets_of_day, excess, new_plan,
}
use pretrend_ai.Paper.Simulation.Close.{update_guard, paused_after, since_after}
use pretrend_ai.Paper.Simulation.Run.{
  turn, deposit, start, simulate_paper_execution, close_day, closed, policy_at, gated_of,
  trading_of, trading_with, action_effective,
}
use pretrend_ai.Paper.Simulation.Invariant.{IfSome, run-keeps}
use pretrend_ai.Paper.Simulation.Days.{HasRows, simulation-HasRows}

-- The date of the pause is there exactly while the account is paused.
since_paused :
    (breach recovery paused : Bool) (td : ℕ) (since : Option ℕ)
    → is_some since ≡ paused
    → is_some (since_after breach recovery paused td since) ≡ paused_after breach recovery paused
since_paused breach recovery paused td since h = ground arith

row_added : {A : Type 0} (xs : List A) (y : A) → true ≡ ltb 0 (length (xs ++ (y ∷ [])))
row_added [] y = refl
row_added (x ∷ xs) y = sym (lt→ltb 0 (length ((x ∷ xs) ++ (y ∷ []))) (omega arith))

module _ (fl : FloatOps) (names : Names) (settings : Settings fl names) where
  open fl use {F}
  open names use {S}

  -- A plan in place has a tranche left.
  abbrev pub has_tranche : Option (StagedSell fl names) → Bool
  has_tranche none = true
  has_tranche (some plan) = ltb plan.tranche_idx (length plan.tranches)

  -- The pause has a date exactly while it lasts, a plan in place has a tranche left, and there is a value
  -- of the day before, and a row, exactly if a day was simulated.
  pub record IsWellFormed (a : Account fl names) : Type 0 where
    pub since : is_some a.guard.paused_since ≡ a.guard.paused
    pub tranche : has_tranche a.staged_sell ≡ true
    pub dated : is_some a.prev_nav ≡ is_some a.prev_day
    pub rows : is_some a.prev_day ≡ ltb 0 (length a.pf_rows)

  Proceeds : Option (Trading fl names) → Type 0
  Proceeds none = Unit
  Proceeds (some t) = has_tranche t.staged_sell ≡ true

  traded-Proceeds :
      (plan : Option (StagedSell fl names)) (out : Outcome fl S)
      → has_tranche plan ≡ true
      → Proceeds (traded fl names plan out)
  unfolding Proceeds
  traded-Proceeds plan out h = if_cases Proceeds out.failed none _ (λ e. tt) (λ e. h)

  advance-tranche : (plan : StagedSell fl names) → has_tranche (advance fl names plan) ≡ true
  advance-tranche plan =
      if_cases (λ o. has_tranche o ≡ true) (ltb (plan.tranche_idx + 1) (length plan.tranches)) _
        none (λ e. e) (λ e. refl)

  tranche-Proceeds :
      (prices : Prices fl names) (weights : Weights fl names) (td : ℕ) (book : Portfolio fl S)
      (plan : StagedSell fl names) (tranche : Option F)
      → has_tranche (some plan) ≡ true
      → Proceeds (sell_tranche fl names settings prices weights td book plan tranche)
  unfolding Proceeds
  tranche-Proceeds prices weights td book plan none h = h
  tranche-Proceeds prices weights td book plan (some tranche) h =
      traded-Proceeds (advance fl names plan) _ (advance-tranche plan)

  plan-Proceeds :
      (prices : Prices fl names) (weights : Weights fl names) (td : ℕ) (book : Portfolio fl S)
      (plan : Option (StagedSell fl names))
      → has_tranche plan ≡ true
      → Proceeds (follow_plan fl names settings prices weights td book plan)
  unfolding Proceeds
  plan-Proceeds prices weights td book none h = refl
  plan-Proceeds prices weights td book (some plan) h =
      tranche-Proceeds prices weights td book plan (nth fl names plan.tranches plan.tranche_idx) h

  module _ (some_tranche : 0 < length settings.sell_tranches) where
    friday-tranche :
        (prices : Prices fl names) (ratio : F) (book : Portfolio fl S)
        (plan : Option (StagedSell fl names))
        → has_tranche plan ≡ true
        → has_tranche (plan_of_friday fl names settings prices ratio book plan) ≡ true
    unfolding plan_of_friday
    friday-tranche prices ratio book none h =
        let total_sell = excess fl names prices ratio book in
        if_cases (λ o. has_tranche o ≡ true) (fl.lt (fl.lit 0 0) total_sell)
          (some (new_plan fl names settings ratio total_sell)) none
          (λ e. lt→ltb 0 (length settings.sell_tranches) some_tranche) (λ e. refl)
    friday-tranche prices ratio book (some plan) h = h

    trade_day-Proceeds :
        (prices : Prices fl names) (ratio : F) (weights : Weights fl names) (td : ℕ)
        (action : Action) (paused : Bool) (plan : Option (StagedSell fl names))
        (book : Portfolio fl S)
        → has_tranche plan ≡ true
        → Proceeds (trade_day fl names settings prices (ratio, weights) td action paused plan book)
    unfolding trade_day Proceeds
    trade_day-Proceeds prices ratio weights td action paused plan book h =
        if_cases Proceeds (is_monday td) _ _
          (λ e.
            if_cases (λ o. has_tranche o ≡ true) (is_decrease action) plan none (λ d. h)
              (λ d. refl))
          (λ e.
            if_cases Proceeds (is_tuesday td && (is_increase action && not paused)) _ _
              (λ t. traded-Proceeds plan _ h)
              (λ t.
                if_cases Proceeds (is_friday td) _ _
                  (λ f.
                    if_cases Proceeds (is_decrease action) _ _
                      (λ d.
                        plan-Proceeds prices weights td book
                          (plan_of_friday fl names settings prices ratio book plan)
                          (friday-tranche prices ratio book plan h))
                      (λ d. refl))
                  (λ f. h)))

    closed-IsWellFormed :
        (td : ℕ) (prices : Prices fl names) (policy : Option PolicyRow) (gated : Gated fl names)
        (a : Account fl names) (o : Option (Trading fl names))
        → IsWellFormed a
        → Proceeds o
        → IfSome IsWellFormed (closed fl names settings td prices policy gated a o)
    unfolding Proceeds close_day update_guard
    closed-IsWellFormed td prices policy gated a none w h = tt
    closed-IsWellFormed td prices policy gated a (some t) w h = record {
      since = since_paused _ _ a.guard.paused td a.guard.paused_since w.since;
      tranche = h;
      dated = refl;
      rows = row_added a.pf_rows _;
    }

    deposit-IsWellFormed :
        (td : ℕ) (a : Account fl names)
        → IsWellFormed a
        → IsWellFormed (deposit fl names settings td a)
    unfolding deposit
    deposit-IsWellFormed td a w =
        if_cases IsWellFormed (is_first_of_month fl names settings.month td a.prev_day) _ a
          (λ e. record { since = w.since; tranche = w.tranche; dated = w.dated; rows = w.rows })
          (λ e. w)

    turn-IsWellFormed :
        (row : Exposure fl names) (prices : Prices fl names) (a : Account fl names)
        → IsWellFormed a
        → IfSome IsWellFormed
            (turn fl names settings row prices (deposit fl names settings row.trade_date a))
    unfolding turn trading_of trading_with
    turn-IsWellFormed row prices a w =
        let b = deposit fl names settings row.trade_date a in
        let v = deposit-IsWellFormed row.trade_date a w in
        let policy = policy_at fl names settings row.trade_date in
        let gated = gated_of fl names settings row.trade_date b in
        let target = targets_of_day fl names settings row policy gated.config prices in
        closed-IsWellFormed row.trade_date prices policy gated b
          (trading_of fl names settings row prices b) v
          (trade_day-Proceeds prices target.0 target.1 row.trade_date
            (action_effective fl names settings row prices b.book) b.guard.paused b.staged_sell
            b.book v.tranche)

    end-IsWellFormed :
        (exposures : List (Exposure fl names))
        → IfSome IsWellFormed (simulate_paper_execution fl names settings exposures)
    unfolding simulate_paper_execution start
    end-IsWellFormed exposures =
        run-keeps settings IsWellFormed turn-IsWellFormed exposures (start fl names settings)
          (record { since = refl; tranche = refl; dated = refl; rows = refl })

    both_hold :
        (P Q : Account fl names → Type 0) (o : Option (Account fl names))
        → IfSome P o
        → IfSome Q o
        → IfSome (λ a. P a × Q a) o
    both_hold P Q none h k = tt
    both_hold P Q (some a) h k = (h, k)

    -- Where the sales are staged in one tranche or more, the account at the end of a simulation has a date
    -- of its pause exactly while it is paused, a tranche left in a staged sale, and a row of the portfolio
    -- for each day that has prices, in the order of the days, and no other.
    pub simulation-IsWellFormed :
        (exposures : List (Exposure fl names))
        → IfSome
            (λ a. IsWellFormed a × HasRows fl names settings exposures a)
            (simulate_paper_execution fl names settings exposures)
    simulation-IsWellFormed exposures =
        both_hold IsWellFormed (HasRows fl names settings exposures)
          (simulate_paper_execution fl names settings exposures) (end-IsWellFormed exposures)
          (simulation-HasRows fl names settings exposures)
