-- ===== src/Strategy/HardGate.antt =====
-- The hard gates from the labels of a day to its allocation.
use pretrend_ai.Base.{
  Bool, true, false, ◌≡◌, refl, ◌&&◌, ◌||◌, not, Option, some, List, [], ◌∷◌, length, All, arith,
  Bool-cases, inl, inr, ap, suc, ◌∙◌,
}
use pretrend_ai.Base.Float.{FloatOps}
use pretrend_ai.Regime.Labels.{LongPhase, MidRegime, ShortSignal}
use pretrend_ai.Strategy.Allocation.{
  Action, hold, increase, decrease, v0, Result, allocate, compute_allocation, build_allocation,
}
use pretrend_ai.Strategy.Gates.{compute_allocation-gate}
use pretrend_ai.Strategy.Position.{
  AxisRow, Policy, market_position, select_policy, allocate_days, judge_run_universe,
  judge_risk_gate, known,
}

abbrev is_panic : Option ShortSignal → Bool
is_panic (some ShortSignal.panic) = true
is_panic _ = false

abbrev is_weak : Option LongPhase → Bool
is_weak (some LongPhase.recession) = true
is_weak (some LongPhase.slowdown) = true
is_weak _ = false

abbrev is_risk_off : Option MidRegime → Bool
is_risk_off (some MidRegime.risk_off) = true
is_risk_off _ = false

-- A day of panic, or of recession or slowdown in a risk-off regime.
abbrev pub blocked_day : AxisRow → Bool
blocked_day row =
    is_panic row.short_signal || (is_weak row.long_phase && is_risk_off row.mid_regime)

abbrev pub is_increase : Action → Bool
is_increase increase = true
is_increase hold = false
is_increase decrease = false

abbrev pub zip {ℓ κ} : {A : Type ℓ} {B : Type κ} → List A → List B → List (A × B)
zip [] ys = []
zip (x ∷ xs) [] = []
zip (x ∷ xs) (y ∷ ys) = (x, y) ∷ zip xs ys

gate_of :
    (ss : Option ShortSignal) → judge_risk_gate (known ShortSignal.unknown ss) ≡ not (is_panic ss)
unfolding judge_risk_gate
gate_of ss = ground arith

universe_of :
    (lp : Option LongPhase) (mr : Option MidRegime)
    → judge_run_universe (known LongPhase.unknown lp) (known MidRegime.unknown mr)
      ≡ not (is_weak lp && is_risk_off mr)
unfolding judge_run_universe
universe_of lp mr = ground arith

-- Both gates are open on exactly the days that are not blocked.
pub gates_of_day :
    (row : AxisRow)
    → ((market_position row).risk_gate && (market_position row).run_universe)
      ≡ not (blocked_day row)
unfolding market_position
gates_of_day row =
    rw (gate_of row.short_signal, universe_of row.long_phase row.mid_regime) (ground arith)

module _ (fl : FloatOps) where
  open fl use {F}

  not_increase : (a : Action) → ¬ (a ≡ increase) → is_increase a ≡ false
  not_increase hold n = refl
  not_increase decrease n = refl
  not_increase increase n = elim (n refl) [ ]

  day_lem :
      (policy : Policy fl) (current : F) (row : AxisRow)
      → (is_increase
            (compute_allocation fl current (select_policy fl policy (market_position row))).action
          && blocked_day row)
        ≡ false
  unfolding select_policy
  day_lem policy current row = elim (Bool-cases (blocked_day row)) [
    | inl e ↦
        let closed : ((market_position row).risk_gate && (market_position row).run_universe)
            ≡ false =
          gates_of_day row ∙ ap not e in
        rw
          (not_increase _ (
            compute_allocation-gate fl current (select_policy fl policy (market_position row))
              closed))
          refl
    | inr e ↦ rw e (ground arith)
  ]

  -- Over any sequence of days, in the default mode: each day gets one result, and no day of panic, and
  -- none of recession or slowdown in a risk-off regime, gets an INCREASE.
  pub no_increase_on_blocked_days :
      (policy : Policy fl) (current : F) (rows : List AxisRow)
      → (length (allocate_days fl policy v0 current rows) ≡ length rows)
        × All
            (λ (z : AxisRow × Result fl). (is_increase z.1.action && blocked_day z.0) ≡ false)
            (zip rows (allocate_days fl policy v0 current rows))
  unfolding allocate_days build_allocation allocate
  no_increase_on_blocked_days policy current [] = (refl, tt)
  no_increase_on_blocked_days policy current (row ∷ rows) =
      let next =
        (compute_allocation fl current
          (select_policy fl policy (market_position row))).next_invested_ratio in
      let rest = no_increase_on_blocked_days policy next rows in
      (ap suc rest.0, (day_lem policy current row, rest.1))
