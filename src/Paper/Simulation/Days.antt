-- ===== src/Paper/Simulation/Days.antt =====
-- The rows of the portfolio that the simulation writes: one for each day that has prices.
use mathlib.Core.Path.{subst}
use mathlib.Core.List.{append-nil, append_assoc, map-append}
use pretrend_ai.Base.{
  ℕ, Bool, true, false, ◌≡◌, refl, ap, sym, ◌∙◌, Option, none, some, List, [], ◌∷◌, ◌++◌, map, keep,
  if◌then◌else◌, if_cases,
}
use pretrend_ai.Base.Float.{FloatOps}
use pretrend_ai.Backtest.Rebalancer.{Names, PolicyRow, is_first_of_month}
use pretrend_ai.Paper.Simulation.{Settings, Exposure, Account, Prices, PortfolioRow, as_prices}
use pretrend_ai.Paper.Simulation.Day.{Trading, Gated}
use pretrend_ai.Paper.Simulation.Close.{portfolio_row}
use pretrend_ai.Paper.Simulation.Run.{
  turn, deposit, step, run, start, simulate_paper_execution, close_day, closed, policy_at, gated_of,
  trading_of, and_then,
}
use pretrend_ai.Paper.Simulation.Invariant.{IfSome}

module _ (fl : FloatOps) (names : Names) (settings : Settings fl names) where
  abbrev is_quoted : Prices fl names → Bool
  is_quoted [] = false
  is_quoted (p ∷ ps) = true

  -- There is a price for the day.
  abbrev pub has_prices : Exposure fl names → Bool
  has_prices row = is_quoted (as_prices fl names settings.price_rows row.trade_date)

  -- The dates of the rows that have prices, in their order.
  unfoldable pub priced_days : List (Exposure fl names) → List ℕ
  unfolding as_prices
  priced_days rows = map (λ (row : Exposure fl names). row.trade_date) (keep has_prices rows)

  -- The dates of the portfolio's rows.
  abbrev pub row_dates : Account fl names → List ℕ
  row_dates a = map (λ (r : PortfolioRow fl names). r.trade_date) a.pf_rows

  -- The account has the dates of the other, and then those of the list.
  unfoldable Adds : List ℕ → Account fl names → Account fl names → Type 0
  Adds days a b = row_dates b ≡ row_dates a ++ days

  closed-Adds :
      (td : ℕ) (prices : Prices fl names) (policy : Option PolicyRow) (gated : Gated fl names)
      (a : Account fl names) (o : Option (Trading fl names))
      → IfSome (Adds (td ∷ []) a) (closed fl names settings td prices policy gated a o)
  unfolding Adds close_day portfolio_row
  closed-Adds td prices policy gated a none = tt
  closed-Adds td prices policy gated a (some t) = map-append _ a.pf_rows _

  -- The deposit writes no row.
  deposit-Adds :
      (td : ℕ) (days : List ℕ) (a : Account fl names) (o : Option (Account fl names))
      → IfSome (Adds days (deposit fl names settings td a)) o
      → IfSome (Adds days a) o
  unfolding Adds deposit
  deposit-Adds td days a none h = tt
  deposit-Adds td days a (some b) h =
      h
      ∙ ap (λ ds. ds ++ days)
          (if_cases (λ (x : Account fl names). row_dates x ≡ row_dates a)
            (is_first_of_month fl names settings.month td a.prev_day) _ a (λ e. refl) (λ e. refl))

  -- A step adds the date of its row if there are prices for it.
  abbrev days_of : Bool → ℕ → List ℕ
  days_of true td = td ∷ []
  days_of false td = []

  step-Adds :
      (row : Exposure fl names) (a : Account fl names)
      → IfSome (Adds (days_of (has_prices row) row.trade_date) a) (step fl names settings row a)
  unfolding step turn
  step-Adds row a = by_prices (as_prices fl names settings.price_rows row.trade_date)
    where
      by_prices :
          (prices : Prices fl names)
          → IfSome (Adds (days_of (is_quoted prices) row.trade_date) a) (elim prices [
            | [] ↦ some a
            | p ∷ ps ↦
                turn fl names settings row (p ∷ ps) (deposit fl names settings row.trade_date a)
          ])
      by_prices [] = unfold Adds in sym (append-nil (row_dates a))
      by_prices (p ∷ ps) =
          let td = row.trade_date in
          let b = deposit fl names settings td a in
          deposit-Adds td (td ∷ []) a (turn fl names settings row (p ∷ ps) b) (
            closed-Adds td (p ∷ ps) (policy_at fl names settings td)
              (gated_of fl names settings td b) b (trading_of fl names settings row (p ∷ ps) b))

  then-Adds :
      (days more : List ℕ) (a : Account fl names) (o : Option (Account fl names))
      (f : Account fl names → Option (Account fl names))
      → IfSome (Adds days a) o
      → ((b : Account fl names) → IfSome (Adds more b) (f b))
      → IfSome (Adds (days ++ more) a) (and_then fl names o f)
  unfolding Adds
  then-Adds days more a none f h k = tt
  then-Adds days more a (some b) f h k = joined (f b) (k b)
    where
      joined :
          (o : Option (Account fl names))
          → IfSome (Adds more b) o
          → IfSome (Adds (days ++ more) a) o
      joined none l = tt
      joined (some c) l = l ∙ ap (λ ds. ds ++ more) h ∙ append_assoc (row_dates a) days more

  days_of-cons :
      (b : Bool) (row : Exposure fl names) (rows : List (Exposure fl names))
      → map (λ (r : Exposure fl names). r.trade_date) (if b then row ∷ rows else rows)
        ≡ days_of b row.trade_date ++ map (λ (r : Exposure fl names). r.trade_date) rows
  days_of-cons true row rows = refl
  days_of-cons false row rows = refl

  run-Adds :
      (rows : List (Exposure fl names)) (a : Account fl names)
      → IfSome (Adds (priced_days rows) a) (run fl names settings rows a)
  unfolding run priced_days
  run-Adds [] a = unfold Adds in sym (append-nil (row_dates a))
  run-Adds (row ∷ rows) a =
      subst (λ days. IfSome (Adds days a) (run fl names settings (row ∷ rows) a))
        (sym (days_of-cons (has_prices row) row (keep has_prices rows)))
        (then-Adds (days_of (has_prices row) row.trade_date) (priced_days rows) a
          (step fl names settings row a) (run fl names settings rows) (step-Adds row a)
          (run-Adds rows))

  -- The portfolio's rows at the end have the dates of the days with prices.
  unfoldable pub HasRows : List (Exposure fl names) → Account fl names → Type 0
  HasRows rows a = row_dates a ≡ priced_days rows

  pub simulation-HasRows :
      (rows : List (Exposure fl names))
      → IfSome (HasRows rows) (simulate_paper_execution fl names settings rows)
  unfolding simulate_paper_execution start HasRows Adds
  simulation-HasRows rows = run-Adds rows (start fl names settings)
