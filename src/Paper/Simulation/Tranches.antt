-- ===== src/Paper/Simulation/Tranches.antt =====
-- The tranches that a day leaves of the plan of staged sales.
use pretrend_ai.Base.{
  ℕ, zero, suc, ◌+◌, ◌≤◌, ◌<◌, ltb, Bool, true, false, ◌≡◌, refl, ◌&&◌, not, Option, none, some,
  List, [], ◌∷◌, length, if_cases, arith,
}
use pretrend_ai.Base.Float.{FloatOps}
use pretrend_ai.Strategy.Allocation.{Action}
use pretrend_ai.Backtest.Portfolio.{Portfolio}
use pretrend_ai.Backtest.Rebalancer.{Names, Weights}
use pretrend_ai.Paper.Rebalance.{Outcome}
use pretrend_ai.Paper.Simulation.{is_monday, is_tuesday, is_friday, Settings, StagedSell, Prices}
use pretrend_ai.Paper.Simulation.Day.{
  Trading, idle, traded, trade_day, plan_of_friday, sell_tranche, advance, is_increase, is_decrease,
  nth,
}

module _ (fl : FloatOps) (names : Names) where
  -- A plan in place has a tranche left, and n at most.
  unfoldable pub Within : ℕ → Option (StagedSell fl names) → Type 0
  Within n none = Unit
  Within n (some plan) =
      (plan.tranche_idx < length plan.tranches) × (length plan.tranches ≤ plan.tranche_idx + n)

  unfoldable pub WithinAfter : ℕ → Option (Trading fl names) → Type 0
  WithinAfter n none = Unit
  WithinAfter n (some t) = Within n t.staged_sell

  nth-none : (xs : List fl.F) (i : ℕ) → nth fl names xs i ≡ none → length xs ≤ i
  nth-none [] i h = omega arith
  nth-none (x ∷ xs) zero h = absurd (ground arith)
  nth-none (x ∷ xs) (suc i) h = omega (arith, nth-none xs i h)

module _ (fl : FloatOps) (names : Names) (settings : Settings fl names) where
  open fl use {F}
  open names use {S}

  advance-Within :
      (n : ℕ) (plan : StagedSell fl names)
      → Within fl names (suc n) (some plan)
      → Within fl names n (advance fl names plan)
  unfolding Within
  advance-Within n plan h =
      if_cases (Within fl names n) (ltb (plan.tranche_idx + 1) (length plan.tranches)) _ none
        (λ e. ground arith) (λ e. tt)

  traded-Within :
      (n : ℕ) (plan : Option (StagedSell fl names)) (out : Outcome fl S)
      → Within fl names n plan
      → WithinAfter fl names n (traded fl names plan out)
  unfolding WithinAfter
  traded-Within n plan out h =
      if_cases (WithinAfter fl names n) out.failed none _ (λ e. tt) (λ e. h)

  tranche-Within :
      (n : ℕ) (prices : Prices fl names) (weights : Weights fl names) (td : ℕ)
      (book : Portfolio fl S) (plan : StagedSell fl names) (tranche : Option F)
      → nth fl names plan.tranches plan.tranche_idx ≡ tranche
      → Within fl names (suc n) (some plan)
      → WithinAfter fl names n (sell_tranche fl names settings prices weights td book plan tranche)
  unfolding Within
  tranche-Within n prices weights td book plan none e h =
      absurd (omega (arith, nth-none fl names plan.tranches plan.tranche_idx e, h))
  tranche-Within n prices weights td book plan (some tranche) e h =
      traded-Within n (advance fl names plan) _ (advance-Within n plan h)

  idle-Within :
      (n : ℕ) (book : Portfolio fl S) (plan : Option (StagedSell fl names))
      → Within fl names n plan
      → WithinAfter fl names n (idle fl names book plan)
  unfolding WithinAfter
  idle-Within n book plan h = h

  -- A Friday uses up a tranche of the plan in place.
  pub friday-Within :
      (n : ℕ) (prices : Prices fl names) (ratio : F) (weights : Weights fl names) (td : ℕ)
      (action : Action) (paused : Bool) (plan : StagedSell fl names) (book : Portfolio fl S)
      → is_friday td ≡ true
      → Within fl names (suc n) (some plan)
      → WithinAfter fl names n
          (trade_day fl names settings prices (ratio, weights) td action paused (some plan) book)
  unfolding trade_day plan_of_friday Within
  friday-Within n prices ratio weights td action paused plan book f h =
      if_cases (WithinAfter fl names n) (is_monday td) _ _ (λ e. absurd (ground arith))
        (λ e.
          if_cases (WithinAfter fl names n) (is_tuesday td && (is_increase action && not paused)) _
            _ (λ t. absurd (ground arith))
            (λ t.
              if_cases (WithinAfter fl names n) (is_friday td) _ _
                (λ g.
                  if_cases (WithinAfter fl names n) (is_decrease action) _ _
                    (λ d.
                      tranche-Within n prices weights td book plan
                        (nth fl names plan.tranches plan.tranche_idx) refl h)
                    (λ d. idle-Within n book none tt))
                (λ g. absurd (ground arith))))

  -- No other day adds one.
  pub other-Within :
      (n : ℕ) (prices : Prices fl names) (ratio : F) (weights : Weights fl names) (td : ℕ)
      (action : Action) (paused : Bool) (plan : StagedSell fl names) (book : Portfolio fl S)
      → is_friday td ≡ false
      → Within fl names n (some plan)
      → WithinAfter fl names n
          (trade_day fl names settings prices (ratio, weights) td action paused (some plan) book)
  unfolding trade_day Within
  other-Within n prices ratio weights td action paused plan book f h =
      if_cases (WithinAfter fl names n) (is_monday td) _ _
        (λ e.
          idle-Within n book _
            (if_cases (Within fl names n) (is_decrease action) (some plan) none (λ d. h) (λ d. tt)))
        (λ e.
          if_cases (WithinAfter fl names n) (is_tuesday td && (is_increase action && not paused)) _
            _ (λ t. traded-Within n (some plan) _ h)
            (λ t.
              if_cases (WithinAfter fl names n) (is_friday td) _ _ (λ g. absurd (ground arith))
                (λ g. idle-Within n book (some plan) h)))
