-- ===== src/Paper/Simulation/PointInTime.antt =====
-- The simulation up to a day does not depend on rows of later days.
use pretrend_ai.Base.{
  ℕ, Bool, false, ◌≡◌, refl, ◌==◌, leb, Option, none, some, List, [], ◌++◌, All, All-mono, keep,
  keep-append, keep_nothing, arith, ◌≤◌,
}
use mathlib.Core.List.{append-nil}
use pretrend_ai.Base.Float.{FloatOps}
use pretrend_ai.Base.AsOf.{window-append, latest_row-append}
use pretrend_ai.Backtest.Rebalancer.{
  Names, Weights, Config, PolicyRow, UniverseRow, Preset, v3_4_1, v3_4_2a, other_preset,
}
use pretrend_ai.Strategy.Allocation.{Action}
use pretrend_ai.Backtest.Portfolio.{Portfolio}
use pretrend_ai.Regime.Labels.{ShortSignal, MidRegime}
use pretrend_ai.Paper.Gates.{
  NextStep, GroupRow, lookup_group_rows, apply_group_gate, apply_group_gate_v341,
}
use pretrend_ai.Paper.Simulation.{
  Settings, Exposure, Account, StagedSell, PriceRow, Prices, as_prices,
}
use pretrend_ai.Paper.Simulation.Day.{
  group_gated, short_of, mid_of, rebalance_day, plan_of_friday, gate_config, targets_of_day,
  trade_day,
}
use pretrend_ai.Paper.Simulation.Run.{deposit, gated_of, policy_at}

module _ (fl : FloatOps) (names : Names) where
  -- Rows that arrive later, for each frame that the simulation looks up.
  pub record Later : Type 0 where
    pub price_rows : List (PriceRow fl names)
    pub policy_rows : List PolicyRow
    pub universe : List (UniverseRow fl names)
    pub next_steps : List NextStep
    pub groups : List (GroupRow fl names)

  -- All of them are dated after the day.
  pub record IsAfter (t : ℕ) (later : Later) : Type 0 where
    pub price_rows_after : All (λ r. leb r.trade_date t ≡ false) later.price_rows
    pub policy_after : All (λ (r : PolicyRow). leb r.date t ≡ false) later.policy_rows
    pub universe_after : All (λ r. leb r.decision_date t ≡ false) later.universe
    pub next_steps_after : All (λ (r : NextStep). leb r.date t ≡ false) later.next_steps
    pub groups_after : All (λ r. leb r.date t ≡ false) later.groups

  abbrev pub extended : Settings fl names → Later → Settings fl names
  extended settings later = record settings {
    price_rows = settings.price_rows ++ later.price_rows;
    policy_rows = settings.policy_rows ++ later.policy_rows;
    universe = settings.universe ++ later.universe;
    next_steps = settings.next_steps ++ later.next_steps;
    groups = settings.groups ++ later.groups;
  }

  after_earlier :
      {A : Type 0} (date : A → ℕ) (t td : ℕ) (rows : List A)
      → td ≤ t
      → All (λ r. leb (date r) t ≡ false) rows
      → All (λ r. leb (date r) td ≡ false) rows
  after_earlier date t td rows h =
      All-mono (λ r. leb (date r) t ≡ false) (λ r. leb (date r) td ≡ false) (λ r e. ground arith)
        rows

  pub IsAfter-le : (t td : ℕ) (later : Later) → td ≤ t → IsAfter t later → IsAfter td later
  IsAfter-le t td later h k = record {
    price_rows_after = after_earlier (λ r. r.trade_date) t td later.price_rows h k.price_rows_after;
    policy_after = after_earlier (λ r. r.date) t td later.policy_rows h k.policy_after;
    universe_after = after_earlier (λ r. r.decision_date) t td later.universe h k.universe_after;
    next_steps_after = after_earlier (λ r. r.date) t td later.next_steps h k.next_steps_after;
    groups_after = after_earlier (λ r. r.date) t td later.groups h k.groups_after;
  }

  module _ (settings : Settings fl names) (later : Later) (td : ℕ) (after : IsAfter td later) where
    pub prices_same :
        as_prices fl names (settings.price_rows ++ later.price_rows) td
        ≡ as_prices fl names settings.price_rows td
    unfolding as_prices
    prices_same =
        let p = λ (r : PriceRow fl names). r.trade_date == td in
        let none_left : keep p later.price_rows ≡ [] = keep_nothing p later.price_rows (
          All-mono (λ (r : PriceRow fl names). leb r.trade_date td ≡ false) (λ r. p r ≡ false)
            (λ r e. ground arith) later.price_rows after.price_rows_after) in
        rw
          (
            keep-append p settings.price_rows later.price_rows,
            none_left,
            append-nil (keep p settings.price_rows),
          )
          refl

    pub policy_same :
        policy_at fl names (extended settings later) td ≡ policy_at fl names settings td
    policy_same =
        latest_row-append (λ (r : PolicyRow). r.date) td settings.policy_rows later.policy_rows
          after.policy_after

    lookup_same :
        lookup_group_rows fl names (settings.groups ++ later.groups) td
        ≡ lookup_group_rows fl names settings.groups td
    unfolding lookup_group_rows
    lookup_same =
        window-append (λ (r : GroupRow fl names). r.date) td settings.groups later.groups
          after.groups_after

    group_same :
        (config : Config fl names)
        → apply_group_gate fl names config (settings.groups ++ later.groups) td
          ≡ apply_group_gate fl names config settings.groups td
    unfolding apply_group_gate
    group_same config = rw (apply_group_gate, lookup_same) refl

    group_v341_same :
        (config : Config fl names) (short : ShortSignal) (mid : MidRegime) (streak : ℕ)
        (active : Bool)
        → apply_group_gate_v341 fl names config
            (settings.groups ++ later.groups)
            td
            short
            mid
            streak
            active
          ≡ apply_group_gate_v341 fl names config settings.groups td short mid streak active
    unfolding apply_group_gate_v341
    group_v341_same config short mid streak active = rw (apply_group_gate_v341, lookup_same) refl

    gated_same :
        (policy : Option PolicyRow) (streak : ℕ) (active : Bool) (soft : Config fl names)
        (preset : Preset)
        → group_gated fl names (extended settings later) td policy streak active soft preset
          ≡ group_gated fl names settings td policy streak active soft preset
    gated_same policy streak active soft v3_4_1 =
        rw (group_v341_same soft (short_of policy) (mid_of policy) streak active) refl
    gated_same policy streak active soft v3_4_2a = rw (group_same soft) refl
    gated_same policy streak active soft other_preset = rw (group_same soft) refl

    gate_config_same :
        (policy : Option PolicyRow) (a : Account fl names)
        → gate_config fl names (extended settings later) td policy a
          ≡ gate_config fl names settings td policy a
    unfolding gate_config
    gate_config_same policy a =
        rw
          (
            latest_row-append (λ (r : NextStep). r.date) td settings.next_steps later.next_steps
                after.next_steps_after,
            gated_same policy,
          )
          refl

    pub gated_of_same :
        (a : Account fl names)
        → gated_of fl names (extended settings later) td a ≡ gated_of fl names settings td a
    unfolding gated_of
    gated_of_same a = rw policy_same (gate_config_same (policy_at fl names settings td) a)

    pub targets_same :
        (row : Exposure fl names) (policy : Option PolicyRow) (config : Config fl names)
        (prices : Prices fl names)
        → row.trade_date ≡ td
        → targets_of_day fl names (extended settings later) row policy config prices
          ≡ targets_of_day fl names settings row policy config prices
    unfolding targets_of_day
    targets_same row policy config prices e =
        rw
          (
            e,
            window-append (λ (r : UniverseRow fl names). r.decision_date) td settings.universe
                later.universe after.universe_after,
          )
          refl

    pub trade_day_same :
        (prices : Prices fl names) (target : fl.F × Weights fl names) (action : Action)
        (paused : Bool) (plan : Option (StagedSell fl names)) (book : Portfolio fl names.S)
        → trade_day fl names (extended settings later) prices target td action paused plan book
          ≡ trade_day fl names settings prices target td action paused plan book
    unfolding trade_day rebalance_day plan_of_friday
    trade_day_same prices target action paused none book = refl
    trade_day_same prices target action paused (some plan) book = refl

    pub deposit_same :
        (a : Account fl names)
        → deposit fl names (extended settings later) td a ≡ deposit fl names settings td a
    unfolding deposit
    deposit_same a = refl
