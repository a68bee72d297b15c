-- ===== src/Paper/Simulation/Day.antt =====
-- src/pretrend/pipeline/paper/execution.py, the body of the loop of `simulate_paper_execution`: the targets
-- of the day and its trades.
use pretrend_ai.Base.{
  ℕ, zero, suc, ◌+◌, Bool, true, false, ◌&&◌, not, ltb, Option, none, some, List, [], ◌∷◌, length,
  if◌then◌else◌,
}
use pretrend_ai.Base.Float.{FloatOps, fmin, fmax}
use pretrend_ai.Base.AsOf.{latest_row, window}
use pretrend_ai.Regime.Labels.{ShortSignal, MidRegime}
use pretrend_ai.Strategy.Allocation.{Action}
use pretrend_ai.Backtest.Portfolio.{Portfolio, Trade, invested_value, total_value, invested_ratio}
use pretrend_ai.Backtest.Rebalancer.{
  Names, Preset, v3_4_1, v3_4_2a, other_preset, PolicyRow, Config, UniverseRow, Weights,
  active_weights, compute_target_weights,
}
use pretrend_ai.Paper.Rebalance.{Outcome, rebalance_to_target}
use pretrend_ai.Paper.Gates.{
  NextStep, bias_of_day, apply_soft_gate, apply_group_gate, apply_group_gate_v341,
}
use pretrend_ai.Paper.Simulation.{
  is_monday, is_tuesday, is_friday, Settings, Exposure, StagedSell, Account, Prices,
  normalize_weights, or_else,
}

abbrev pub short_of : Option PolicyRow → ShortSignal
short_of none = ShortSignal.unknown
short_of (some row) = row.short_signal

abbrev pub mid_of : Option PolicyRow → MidRegime
mid_of none = MidRegime.unknown
mid_of (some row) = row.mid_regime

abbrev pub next_relief : ShortSignal → ℕ → ℕ
next_relief ShortSignal.relief streak = streak + 1
next_relief _ streak = 0

abbrev pub becomes : Bool → Action → Action
becomes forced action = if forced then Action.decrease else action

abbrev pub is_decrease : Action → Bool
is_decrease Action.decrease = true
is_decrease _ = false

abbrev pub is_increase : Action → Bool
is_increase Action.increase = true
is_increase _ = false

module _ (fl : FloatOps) (names : Names) where
  open fl use {F, lit, add, sub, mul, div, lt}
  open names use {S, same_symbol, schd}

  -- the configuration of the day, with the two states of the gates
  pub record Gated : Type 0 where
    pub config : Config fl names
    pub relief_streak : ℕ
    pub group_gate_active : Bool

  abbrev pub group_gated :
      Settings fl names → ℕ → Option PolicyRow → ℕ → Bool → Config fl names → Preset → Gated
  group_gated settings td policy streak active soft v3_4_1 =
      let gated =
        apply_group_gate_v341 fl names soft settings.groups td (short_of policy) (mid_of policy)
          streak active in
      record { config = gated.0; relief_streak = streak; group_gate_active = gated.1 }
  group_gated settings td policy streak active soft v3_4_2a = record {
    config = apply_group_gate fl names soft settings.groups td;
    relief_streak = streak;
    group_gate_active = active;
  }
  group_gated settings td policy streak active soft other_preset = record {
    config = apply_group_gate fl names soft settings.groups td;
    relief_streak = streak;
    group_gate_active = active;
  }

  unfoldable pub gate_config : Settings fl names → ℕ → Option PolicyRow → Account fl names → Gated
  unfolding latest_row
  gate_config settings td policy a =
      let preset = settings.config.preset_name in
      let bias =
        bias_of_day preset (latest_row (λ (r : NextStep). r.date) td settings.next_steps) in
      if settings.enable_predictor_gate
      then group_gated settings td policy (next_relief (short_of policy) a.relief_streak)
          a.group_gate_active (apply_soft_gate fl names settings.config bias) preset
      else record {
        config = settings.config;
        relief_streak = a.relief_streak;
        group_gate_active = a.group_gate_active;
      }

  -- the target ratio, capped, and the target weights, normalised over the symbols with a price
  unfoldable pub targets_of_day :
      Settings fl names
      → Exposure fl names
      → Option PolicyRow
      → Config fl names
      → Prices fl names
      → F × Weights fl names
  unfolding window normalize_weights compute_target_weights
  targets_of_day settings row policy config prices =
      let td = row.trade_date in
      let universe = window (λ (r : UniverseRow fl names). r.decision_date) td settings.universe in
      let target =
        compute_target_weights fl names td policy row.next_invested_ratio universe config prices in
      (
        fmin fl target.0 settings.max_invested_ratio,
        or_else fl names (normalize_weights fl names target.1 prices)
            (normalize_weights fl names (active_weights fl names settings.config td) prices),
      )

  -- The trades of the day, and what they leave.
  pub record Trading : Type 0 where
    pub trades : List (Trade fl S)
    pub book : Portfolio fl S
    pub staged_sell : Option (StagedSell fl names)

  abbrev pub idle : Portfolio fl S → Option (StagedSell fl names) → Option Trading
  idle book plan = some (record { trades = []; book = book; staged_sell = plan })

  abbrev pub traded : Option (StagedSell fl names) → Outcome fl S → Option Trading
  traded plan out =
      if out.failed
      then none
      else some (record { trades = out.trades; book = out.book; staged_sell = plan })

  abbrev pub lock_symbols : Bool → List S
  lock_symbols locked = if locked then schd ∷ [] else []

  unfoldable pub rebalance_day :
      Settings fl names
      → Prices fl names
      → F
      → Weights fl names
      → ℕ
      → Bool
      → Bool
      → Portfolio fl S
      → Outcome fl S
  unfolding rebalance_to_target total_value
  rebalance_day settings prices ratio weights td allow_sell allow_buy book =
      rebalance_to_target fl S same_symbol prices ratio weights td allow_sell allow_buy
        (lock_symbols settings.schd_sell_locked) (λ s. same_symbol s schd) settings.schd_min_weight
        (total_value fl S same_symbol book prices) book

  -- what is invested above the target
  unfoldable pub excess : Prices fl names → F → Portfolio fl S → F
  unfolding total_value invested_value
  excess prices ratio book =
      let target =
        mul (total_value fl S same_symbol book prices)
          (fmax fl (lit 0 1) (fmin fl (lit 10 1) ratio)) in
      fmax fl (lit 0 1) (sub (invested_value fl S same_symbol book prices) target)

  abbrev pub new_plan : Settings fl names → F → F → StagedSell fl names
  new_plan settings ratio total_sell = record {
    total_sell_amount = total_sell;
    tranches = settings.sell_tranches;
    tranche_idx = 0;
    target_ratio = ratio;
  }

  -- the plan of a Friday: the one in place, or a new one for the excess
  unfoldable pub plan_of_friday :
      Settings fl names
      → Prices fl names
      → F
      → Portfolio fl S
      → Option (StagedSell fl names)
      → Option (StagedSell fl names)
  unfolding excess
  plan_of_friday settings prices ratio book none =
      let total_sell = excess prices ratio book in
      if lt (lit 0 0) total_sell then some (new_plan settings ratio total_sell) else none
  plan_of_friday settings prices ratio book (some plan) = some plan

  abbrev pub nth : List F → ℕ → Option F
  nth [] i = none
  nth (x ∷ xs) zero = some x
  nth (x ∷ xs) (suc i) = nth xs i

  -- after its turn the plan moves on, and ends with its last tranche
  abbrev pub advance : StagedSell fl names → Option (StagedSell fl names)
  advance plan =
      if ltb (plan.tranche_idx + 1) (length plan.tranches)
      then some (record plan { tranche_idx = plan.tranche_idx + 1 })
      else none

  -- `none` stands for a plan without a tranche left, which sells nothing
  abbrev pub sell_tranche :
      Settings fl names
      → Prices fl names
      → Weights fl names
      → ℕ
      → Portfolio fl S
      → StagedSell fl names
      → Option F
      → Option Trading
  sell_tranche settings prices weights td book plan none = idle book (some plan)
  sell_tranche settings prices weights td book plan (some tranche) =
      let total = total_value fl S same_symbol book prices in
      let ratio = fmax fl (lit 0 1) (
        sub (invested_ratio fl S same_symbol book prices)
          (div (mul plan.total_sell_amount tranche) (fmax fl total (lit 1 9)))) in
      traded (advance plan) (rebalance_day settings prices ratio weights td true false book)

  abbrev pub follow_plan :
      Settings fl names
      → Prices fl names
      → Weights fl names
      → ℕ
      → Portfolio fl S
      → Option (StagedSell fl names)
      → Option Trading
  follow_plan settings prices weights td book none = idle book none
  follow_plan settings prices weights td book (some plan) =
      sell_tranche settings prices weights td book plan (nth plan.tranches plan.tranche_idx)

  -- what each weekday trades
  unfoldable pub trade_day :
      Settings fl names
      → Prices fl names
      → F × Weights fl names
      → ℕ
      → Action
      → Bool
      → Option (StagedSell fl names)
      → Portfolio fl S
      → Option Trading
  unfolding rebalance_day plan_of_friday
  trade_day settings prices (ratio, weights) td action paused plan book =
      if is_monday td
      then idle book (if is_decrease action then plan else none)
      else if is_tuesday td && (is_increase action && not paused)
      then traded plan (rebalance_day settings prices ratio weights td false true book)
      else if is_friday td
      then (if is_decrease action
          then follow_plan settings prices weights td book
              (plan_of_friday settings prices ratio book plan)
          else idle book none)
      else idle book plan
