-- ===== src/Broker/TradingDay.antt =====
-- src/dags/broker_mock_trading_dag.py: what `execute_broker_orders_task` plans on each weekday, with the staged
-- sale that it keeps in a file, and the capital that its guardrail compares with. The file is a value, `none` when it is
-- missing or does not parse; saved plans have all their fields. Loading, probing and saving are left out.
use pretrend_ai.Base.{
  ℕ, zero, suc, ◌+◌, Bool, true, false, ◌&&◌, ◌||◌, ◌==◌, ltb, leb, Option, none, some, List, [],
  ◌∷◌, length, take, map, if◌then◌else◌,
}
use pretrend_ai.Base.Int.{pos}
use pretrend_ai.Base.Float.{FloatOps, fmin, fmax, fneg}
use pretrend_ai.Strategy.Allocation.{Action}
use pretrend_ai.Backtest.Portfolio.{Side, bought, sold}
use pretrend_ai.Backtest.Rebalancer.{Names}
use pretrend_ai.Broker.Planner.{Universe}
use pretrend_ai.Broker.Targets.{TargetOrder, Request, build_broker_target_orders}
use pretrend_ai.Broker.Execute.{RowAction, buy_row, sell_row, LedgerRow}

-- `date(y, m, 1)`, and the same day of the next month
pub record Month : Type 0 where
  pub year : ℕ
  pub month : ℕ

abbrev pub next_month : Month → Month
next_month m =
    if m.month == 12
    then record { year = m.year + 1; month = 1 }
    else record { year = m.year; month = m.month + 1 }

abbrev pub month_le : Month → Month → Bool
month_le a b = ltb a.year b.year || (a.year == b.year && leb a.month b.month)

module _ (fl : FloatOps) where
  open fl use {F, lit, add, sub, mul, div, lt, le}

  -- the additions up to the month of the decision; `none` when the fuel runs out
  unfoldable pub add_months : ℕ → Month → Month → F → F → Option F
  add_months zero cursor last monthly total = none
  add_months (suc fuel) cursor last monthly total =
      let rest = add_months fuel (next_month cursor) last monthly (add total monthly) in
      if month_le cursor last then rest else some total

  abbrev pub in_usd : F → Option F → Option F
  in_usd fx none = none
  in_usd fx (some total) = some (div total fx)

  -- `_estimate_total_invested_capital_usd`, with fuel for the loop over the months
  unfoldable pub estimate_capital : ℕ → Month → Month → F → F → F → Option F
  unfolding add_months
  estimate_capital fuel first last initial_krw monthly_krw fx =
      if le fx (lit 0 0)
      then none
      else in_usd fx (add_months fuel first last monthly_krw initial_krw)

  pub record BrokerPlan : Type 0 where
    pub tranche_idx : ℕ
    pub total_sell_amount_pct : F
    pub tranches : List F
    pub target_ratio : F

  abbrev pub guardrail_paused : F → F → F → Bool
  guardrail_paused nav capital peak =
      let ratio = div nav capital in
      let dd = if lt (lit 0 0) peak then div (sub nav peak) peak else lit 0 1 in
      lt (lit 0 0) capital && (lt ratio (lit 85 2) || lt dd (fneg fl (lit 20 2)))

  abbrev pub paused_by : F → F → Option F → Bool
  paused_by nav peak none = false
  paused_by nav peak (some capital) = guardrail_paused nav capital peak

  abbrev pub nth : List F → ℕ → Option F
  nth [] i = none
  nth (x ∷ xs) zero = some x
  nth (x ∷ xs) (suc i) = nth xs i

  abbrev pub new_plan : F → F → BrokerPlan
  new_plan total target = record {
    tranche_idx = 0;
    total_sell_amount_pct = total;
    tranches = lit 50 2 ∷ lit 30 2 ∷ lit 20 2 ∷ [];
    target_ratio = target;
  }

  -- the plan in place, or a new one for the ratio above the target
  unfoldable pub plan_of_friday : F → F → Option BrokerPlan → Option BrokerPlan
  plan_of_friday current next (some plan) = some plan
  plan_of_friday current next none =
      let total = fmax fl (lit 0 1) (sub current (fmax fl (lit 0 1) (fmin fl (lit 10 1) next))) in
      if lt (lit 0 0) total then some (new_plan total next) else none

  abbrev pub advance : BrokerPlan → Option BrokerPlan
  advance plan =
      if leb (length plan.tranches) (plan.tranche_idx + 1)
      then none
      else some (record plan { tranche_idx = plan.tranche_idx + 1 })

module _ (fl : FloatOps) (names : Names) where
  open fl use {F, lit, sub, mul}
  open names use {S}

  -- the orders of the day and the file it leaves
  pub record DayPlan : Type 0 where
    pub orders : List (TargetOrder fl names)
    pub staged_sell : Option (BrokerPlan fl)

  abbrev pub no_orders : Option (BrokerPlan fl) → DayPlan
  no_orders plan = record { orders = []; staged_sell = plan }

  -- the request of the day with another target ratio and the leave to sell
  abbrev pub request_with : F → Bool → Request fl names → Request fl names
  request_with ratio allow_sell q = record q {
    next_invested_ratio = ratio;
    allow_sell = allow_sell;
    lock_sell_symbols = [];
    schd_min_weight = lit 20 2;
  }

  abbrev pub sell_tranche :
      Universe fl names → Request fl names → F → BrokerPlan fl → Option F → DayPlan
  sell_tranche u q current plan none = no_orders none
  sell_tranche u q current plan (some tranche) =
      let ratio =
        fmax fl plan.target_ratio (sub current (mul plan.total_sell_amount_pct tranche)) in
      record {
        orders = build_broker_target_orders fl names u (request_with ratio true q);
        staged_sell = advance fl plan;
      }

  abbrev pub follow_plan :
      Universe fl names → Request fl names → F → Option (BrokerPlan fl) → DayPlan
  follow_plan u q current none = no_orders none
  follow_plan u q current (some plan) =
      sell_tranche u q current plan (nth fl plan.tranches plan.tranche_idx)

  abbrev pub is_decrease : Action → Bool
  is_decrease Action.decrease = true
  is_decrease _ = false

  abbrev pub is_increase : Action → Bool
  is_increase Action.increase = true
  is_increase _ = false

  -- `weekday` counts from Monday, 0. The action and the target ratio are those of the request.
  unfoldable pub plan_day :
      Universe fl names → ℕ → Bool → Request fl names → F → Option (BrokerPlan fl) → DayPlan
  unfolding build_broker_target_orders plan_of_friday
  plan_day u weekday paused q current staged =
      let kept = if is_decrease q.action then staged else none in
      if weekday == 1 && (paused && is_increase q.action)
      then no_orders kept
      else if weekday == 1
      then record {
        orders = build_broker_target_orders fl names u (request_with q.next_invested_ratio false q);
        staged_sell = kept;
      }
      else if weekday == 4 && is_decrease q.action
      then follow_plan u q current (plan_of_friday fl current q.next_invested_ratio kept)
      else no_orders kept

  abbrev pub row_action : Side → RowAction
  row_action bought = buy_row
  row_action sold = sell_row

  abbrev pub to_ledger : TargetOrder fl names → LedgerRow fl S
  to_ledger o = record {
    action = row_action o.action;
    symbol = o.symbol;
    shares = some (fl.of_int (pos o.qty));
  }

  -- `ledger_like_df.head(20)`
  abbrev pub ledger_of : DayPlan → List (LedgerRow fl S)
  ledger_of d = take 20 (map to_ledger d.orders)
