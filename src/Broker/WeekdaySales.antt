-- ===== src/Broker/WeekdaySales.antt =====
-- The plan of the day and the placing of its orders, composed: on which weekdays the broker is asked to sell.
use pretrend_ai.Base.{
  ℕ, Bool, true, false, ◌≡◌, refl, ◌&&◌, ◌==◌, keep_sound, Option, none, List, [], ◌∷◌, All,
  All-mono, take-All, map, if_cases, if◌then◌else◌, arith,
}
use pretrend_ai.Base.Float.{FloatOps}
use pretrend_ai.Backtest.Portfolio.{Side, bought, sold}
use pretrend_ai.Backtest.Rebalancer.{Names}
use pretrend_ai.Broker.Execute.{LedgerRow, Executor}
use pretrend_ai.Broker.Orders.{execute_from_ledger_rows}
use pretrend_ai.Broker.OrderSafety.{Placement, traced, Allows, orders-Safe}
use pretrend_ai.Broker.Planner.{Universe}
use pretrend_ai.Broker.Targets.{
  TargetOrder, Request, is_sale, is_allowed, is_hold, planned_rows, build_broker_target_orders,
}
use pretrend_ai.Broker.TradingDay.{
  BrokerPlan, DayPlan, no_orders, request_with, plan_day, plan_of_friday, follow_plan, is_decrease,
  is_increase, row_action, to_ledger, ledger_of,
}

module _ (fl : FloatOps) (names : Names) where
  open fl use {F}
  open names use {S, same_symbol}

  NoSales : List (TargetOrder fl names) → Type 0
  NoSales os = All (λ (o : TargetOrder fl names). is_sale fl names o.action ≡ false) os

  -- Where sales are not allowed, none is planned.
  unsold :
      (u : Universe fl names) (q : Request fl names)
      → q.allow_sell ≡ false
      → NoSales (build_broker_target_orders fl names u q)
  unfolding NoSales build_broker_target_orders
  unsold u q e =
      if_cases NoSales (is_hold fl names q.action) [] _ (λ h. tt)
        (λ h.
          All-mono (λ (o : TargetOrder fl names). is_allowed fl names q o ≡ true)
            (λ (o : TargetOrder fl names). is_sale fl names o.action ≡ false) (λ o k. ground arith)
            _ (keep_sound (is_allowed fl names q) (planned_rows fl names u q)))

  plan_day-NoSales :
      (u : Universe fl names) (weekday : ℕ) (paused : Bool) (q : Request fl names) (current : F)
      (staged : Option (BrokerPlan fl))
      → (weekday == 4) ≡ false
      → NoSales (plan_day fl names u weekday paused q current staged).orders
  unfolding plan_day NoSales
  plan_day-NoSales u weekday paused q current staged e =
      let kept = if is_decrease fl names q.action then staged else none in
      let Quiet = λ (d : DayPlan fl names). NoSales d.orders in
      if_cases Quiet (weekday == 1 && (paused && is_increase fl names q.action))
        (no_orders fl names kept) _ (λ h. tt)
        (λ h.
          if_cases Quiet (weekday == 1) _ _
            (λ k. unsold u (request_with fl names q.next_invested_ratio false q) refl)
            (λ k.
              if_cases Quiet (weekday == 4 && is_decrease fl names q.action)
                (follow_plan fl names u q current
                  (plan_of_friday fl current q.next_invested_ratio kept))
                (no_orders fl names kept) (λ f. absurd (ground arith)) (λ f. tt)))

  module _ {OrderId W : Type 0} (x : Executor fl OrderId S W) where
    abbrev Buys : Placement S → Type 0
    Buys p = is_sale fl names p.side ≡ false

    Buys-only :
        (o : TargetOrder fl names) (side : Side)
        → o.action ≡ side
        → is_sale fl names side ≡ false
        → Allows x Buys (to_ledger fl names o) (row_action fl names side)
    Buys-only o bought e h = λ qty k l. refl
    Buys-only o sold e h = absurd (ground arith)

    ledger-Buys :
        (os : List (TargetOrder fl names))
        → NoSales os
        → All (λ (row : LedgerRow fl S). Allows x Buys row row.action) (map (to_ledger fl names) os)
    unfolding NoSales
    ledger-Buys [] h = tt
    ledger-Buys (o ∷ os) h = (Buys-only o o.action refl h.0, ledger-Buys os h.1)

    -- On any weekday but Friday, whatever the plan in place, the targets and the broker's answers, the broker gets no
    -- order to sell.
    pub sells_only_on_friday :
        (u : Universe fl names) (weekday : ℕ) (paused : Bool) (q : Request fl names) (current : F)
        (staged : Option (BrokerPlan fl)) (w : W)
        → (weekday == 4) ≡ false
        → let day = plan_day fl names u weekday paused q current staged in
          All
            (λ (p : Placement S). is_sale fl names p.side ≡ false)
            (execute_from_ledger_rows (traced x) (ledger_of fl names day) (w, [])).world.1
    sells_only_on_friday u weekday paused q current staged w e =
        let day = plan_day fl names u weekday paused q current staged in
        orders-Safe x Buys (ledger_of fl names day) w (
          take-All (λ (row : LedgerRow fl S). Allows x Buys row row.action) 20
            (map (to_ledger fl names) day.orders)
            (ledger-Buys day.orders (plan_day-NoSales u weekday paused q current staged e)))
