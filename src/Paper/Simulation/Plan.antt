-- ===== src/Paper/Simulation/Plan.antt =====
-- A plan of staged sales ends.
use mathlib.Core.Path.{subst}
use pretrend_ai.Base.{
  sym, ℕ, ◌+◌, ◌≤◌, ◌<◌, Bool, true, false, ◌≡◌, refl, ◌||◌, not, Option, none, some, List, [], ◌∷◌,
  is_some, length, if_cases, Bool-cases, inl, inr, if◌then◌else◌, arith,
}
use pretrend_ai.Base.Float.{FloatOps}
use pretrend_ai.Strategy.Allocation.{Action}
use pretrend_ai.Backtest.Portfolio.{Portfolio}
use pretrend_ai.Backtest.Rebalancer.{Names, Weights, is_first_of_month}
use pretrend_ai.Paper.Simulation.{
  is_friday, Settings, Exposure, StagedSell, Account, Prices, as_prices,
}
use pretrend_ai.Paper.Simulation.Day.{Trading, trade_day, targets_of_day}
use pretrend_ai.Paper.Simulation.Total.{step-some}
use pretrend_ai.Paper.Simulation.Tranches.{Within, WithinAfter, friday-Within, other-Within}
use pretrend_ai.Paper.Simulation.Run.{
  step, turn, deposit, close_day, closed, policy_at, gated_of, trading_of, trading_with,
  action_effective,
}

module _ (fl : FloatOps) (names : Names) (settings : Settings fl names) where
  open fl use {F}
  open names use {S}

  -- the tranche that a row of the exposures uses up: the one of a Friday with prices
  abbrev pub used : Exposure fl names → Prices fl names → ℕ
  used row [] = 0
  used row (p ∷ ps) = if is_friday row.trade_date then 1 else 0

  unfoldable pub fridays : List (Exposure fl names) → ℕ
  fridays [] = 0
  fridays (row ∷ rows) =
      used row (as_prices fl names settings.price_rows row.trade_date) + fridays rows

  -- the rows reach a point where no plan is in place
  unfoldable pub plan_over : List (Exposure fl names) → Account fl names → Bool
  plan_over [] a = not (is_some a.staged_sell)
  plan_over (row ∷ rows) a = elim (step fl names settings row a) [
    | none ↦ false
    | some b ↦ let rest = plan_over rows b in not (is_some a.staged_sell) || rest
  ]

  unfoldable Kept : ℕ → Option (Account fl names) → Type 0
  Kept n none = Unit
  Kept n (some b) = Within fl names n b.staged_sell

  trade_day-Within :
      (n : ℕ) (row : Exposure fl names) (p : S × F) (ps : Prices fl names) (ratio : F)
      (weights : Weights fl names) (action : Action) (paused : Bool)
      (plan : Option (StagedSell fl names)) (book : Portfolio fl S)
      → is_some plan ≡ true
      → Within fl names (used row (p ∷ ps) + n) plan
      → WithinAfter fl names n (
          trade_day fl names settings
            (p ∷ ps)
            (ratio, weights)
            row.trade_date
            action
            paused
            plan
            book)
  unfolding Within
  trade_day-Within n row p ps ratio weights action paused none book i h = absurd (ground arith)
  trade_day-Within n row p ps ratio weights action paused (some plan) book i h =
      elim (Bool-cases (is_friday row.trade_date)) [
        | inl f ↦
            friday-Within fl names settings n (p ∷ ps) ratio weights row.trade_date action paused
              plan book f (ground arith)
        | inr f ↦
            other-Within fl names settings n (p ∷ ps) ratio weights row.trade_date action paused
              plan book f (ground arith)
      ]

  turn-Kept :
      (n : ℕ) (row : Exposure fl names) (p : S × F) (ps : Prices fl names) (a : Account fl names)
      → is_some a.staged_sell ≡ true
      → Within fl names (used row (p ∷ ps) + n) a.staged_sell
      → Kept n (turn fl names settings row (p ∷ ps) a)
  unfolding turn trading_of trading_with close_day Kept WithinAfter
  turn-Kept n row p ps a i h =
      let td = row.trade_date in
      let config = (gated_of fl names settings td a).config in
      let policy = policy_at fl names settings td in
      let target = targets_of_day fl names settings row policy config (p ∷ ps) in
      go (trading_of fl names settings row (p ∷ ps) a) (
        trade_day-Within n row p ps target.0 target.1
          (action_effective fl names settings row (p ∷ ps) a.book) a.guard.paused a.staged_sell
          a.book i h)
    where
      go :
          (o : Option (Trading fl names))
          → WithinAfter fl names n o
          → Kept n (
              closed fl names settings row.trade_date
                (p ∷ ps)
                (policy_at fl names settings row.trade_date)
                (gated_of fl names settings row.trade_date a)
                a
                o)
      go none k = tt
      go (some t) k = k

  deposit_plan :
      (td : ℕ) (a : Account fl names) → (deposit fl names settings td a).staged_sell ≡ a.staged_sell
  unfolding deposit
  deposit_plan td a =
      if_cases (λ (b : Account fl names). b.staged_sell ≡ a.staged_sell)
        (is_first_of_month fl names settings.month td a.prev_day) _ a (λ e. refl) (λ e. refl)

  step-Kept :
      (n : ℕ) (row : Exposure fl names) (a : Account fl names)
      → is_some a.staged_sell ≡ true
      → Within fl names
          (used row (as_prices fl names settings.price_rows row.trade_date) + n)
          a.staged_sell
      → Kept n (step fl names settings row a)
  unfolding step
  step-Kept n row a i = go (as_prices fl names settings.price_rows row.trade_date)
    where
      go :
          (prices : Prices fl names)
          → Within fl names (used row prices + n) a.staged_sell
          → Kept n (elim prices [
            | [] ↦ some a
            | p ∷ ps ↦
                turn fl names settings row (p ∷ ps) (deposit fl names settings row.trade_date a)
          ])
      go [] h =
          let e : 0 + n ≡ n = omega arith in
          unfold Kept in subst (λ k. Within fl names k a.staged_sell) e h
      go (p ∷ ps) h =
          let e = deposit_plan row.trade_date a in
          turn-Kept n row p ps (deposit fl names settings row.trade_date a)
            (subst (λ o. is_some o ≡ true) (sym e) i)
            (subst (Within fl names (used row (p ∷ ps) + n)) (sym e) h)

  nothing_left :
      (plan : Option (StagedSell fl names)) → Within fl names 0 plan → not (is_some plan) ≡ true
  unfolding Within
  nothing_left none h = refl
  nothing_left (some plan) h = absurd (omega (arith, h))

  after_step :
      (n : ℕ) (rows : List (Exposure fl names)) (running : Bool) (o : Option (Account fl names))
      → is_some o ≡ true
      → (running ≡ true → Kept n o)
      → ((b : Account fl names) → Within fl names n b.staged_sell → plan_over rows b ≡ true)
      → elim o [ none ↦ false | some b ↦ not running || plan_over rows b ] ≡ true
  unfolding Kept
  after_step n rows running none i k f = i
  after_step n rows true (some b) i k f = f b (k refl)
  after_step n rows false (some b) i k f = refl

  runs_out :
      (rows : List (Exposure fl names)) (a : Account fl names)
      → Within fl names (fridays rows) a.staged_sell
      → plan_over rows a ≡ true
  unfolding plan_over fridays
  runs_out [] a h = nothing_left a.staged_sell h
  runs_out (row ∷ rows) a h =
      after_step (fridays rows) rows (is_some a.staged_sell) (step fl names settings row a)
        (step-some fl names settings row a) (λ i. step-Kept (fridays rows) row a i h)
        (runs_out rows)

  -- A plan with a tranche left is over, carried out or dropped, by the time that as many Fridays with
  -- prices have passed as the plan has tranches left.
  pub staged_plan_ends :
      (rows : List (Exposure fl names)) (a : Account fl names) (plan : StagedSell fl names)
      → a.staged_sell ≡ some plan
      → plan.tranche_idx < length plan.tranches
      → length plan.tranches ≤ plan.tranche_idx + fridays rows
      → plan_over rows a ≡ true
  staged_plan_ends rows a plan e h k =
      runs_out rows a (subst (Within fl names (fridays rows)) (sym e) (unfold Within in (h, k)))
