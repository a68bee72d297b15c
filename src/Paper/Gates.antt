-- ===== src/Paper/Gates.antt =====
-- src/pretrend/pipeline/paper/execution.py: the gates that change the tactical part of the configuration
-- on a day. The dictionaries that the group gates return beside it are left out: the simulation drops them.
use pretrend_ai.Base.{
  ℕ, ◌-◌, Bool, true, false, ◌&&◌, ◌||◌, not, leb, Option, none, some, List, [], ◌∷◌, keep, any,
  map, length, decided, if◌then◌else◌,
}
use pretrend_ai.Base.Float.{FloatOps}
use pretrend_ai.Base.AsOf.{window}
use pretrend_ai.Regime.Labels.{Bias, ShortSignal, MidRegime}
use pretrend_ai.Regime.Rotation.{GroupState, GroupState-discrete}
use pretrend_ai.Backtest.Rebalancer.{Names, Preset, v3_4_1, v3_4_2a, other_preset, Config}

-- A row of the next-step frame; `held_by_cooldown` is `bias_state_source == "HOLD_COOLDOWN"`.
pub record NextStep : Type 0 where
  pub date : ℕ
  pub bias_20d : Bias
  pub bias_candidate_20d : Bias
  pub held_by_cooldown : Bool
  pub cooldown_compressed : Bool
  pub hard_gate_exit_assist : Bool

abbrev pub is_risk_off : Bias → Bool
is_risk_off Bias.risk_off_bias = true
is_risk_off _ = false

-- a candidate of the three known biases
abbrev pub known_or : Bias → Bias → Bias
known_or Bias.unknown bias = bias
known_or candidate bias = candidate

abbrev pub compressed_bias : NextStep → Bias
compressed_bias row =
    if row.hard_gate_exit_assist && is_risk_off row.bias_20d
    then Bias.neutral_bias
    else if row.cooldown_compressed && row.held_by_cooldown
    then known_or row.bias_candidate_20d row.bias_20d
    else row.bias_20d

-- the bias of the day, by the preset; without a row it is UNKNOWN
unfoldable pub bias_of_day : Preset → Option NextStep → Bias
bias_of_day preset none = Bias.unknown
bias_of_day v3_4_2a (some row) = compressed_bias row
bias_of_day v3_4_1 (some row) = row.bias_20d
bias_of_day other_preset (some row) = row.bias_20d

module _ (fl : FloatOps) (names : Names) where
  open fl use {F, lit, mul, round}
  open names use {G, same_group}

  abbrev pub with_slots : Config fl names → ℕ → F → Config fl names
  with_slots config slots weight = record config {
    max_tactical_slots = slots;
    tactical_weight = weight;
  }

  abbrev pub reduced_weight : Config fl names → F
  reduced_weight config = round (mul config.tactical_weight (lit 75 2)) 4

  unfoldable pub apply_soft_gate : Config fl names → Bias → Config fl names
  apply_soft_gate config Bias.risk_on_bias = with_slots config 2 config.tactical_weight
  apply_soft_gate config Bias.neutral_bias = with_slots config 1 (reduced_weight config)
  apply_soft_gate config Bias.risk_off_bias = with_slots config 0 (lit 0 1)
  apply_soft_gate config Bias.unknown = with_slots config 1 (reduced_weight config)

  -- A row of the group transition frame.
  pub record GroupRow : Type 0 where
    pub date : ℕ
    pub asset_group : G
    pub group_state_now : GroupState

  unfoldable pub lookup_group_rows : List GroupRow → ℕ → List GroupRow
  unfolding window
  lookup_group_rows rows td = window (λ r. r.date) td rows

  abbrev pub is_weak : GroupRow → Bool
  is_weak r = decided GroupState-discrete r.group_state_now GroupState.weak

  -- the members of a set, each once
  unfoldable pub distinct : List G → List G
  distinct [] = []
  distinct (g ∷ gs) =
      let rest = distinct gs in if any (λ h. same_group g h) rest then rest else g ∷ rest

  unfoldable pub weak_groups : List GroupRow → List G
  unfolding distinct
  weak_groups rows = distinct (map (λ r. r.asset_group) (keep is_weak rows))

  abbrev pub allowed_groups : Config fl names → List G → List G
  allowed_groups config weak =
      keep (λ g. not (any (λ h. same_group g h) weak)) config.tactical_groups

  -- the groups, the slots and the weight; no slot is left without a group
  abbrev pub with_groups : Config fl names → List G → ℕ → F → Config fl names
  with_groups config [] slots weight = record config {
    tactical_groups = [];
    max_tactical_slots = 0;
    tactical_weight = lit 0 1;
  }
  with_groups config (g ∷ gs) slots weight = record config {
    tactical_groups = g ∷ gs;
    max_tactical_slots = slots;
    tactical_weight = weight;
  }

  abbrev pub shrink : Config fl names → List G → Config fl names
  shrink config weak =
      with_groups config (allowed_groups config weak) (config.max_tactical_slots - 1)
        (reduced_weight config)

  -- v3.4: any weak group takes a slot and a quarter of the weight
  abbrev pub gate_v34 : Config fl names → List G → Config fl names
  gate_v34 config [] =
      with_groups config (allowed_groups config []) config.max_tactical_slots config.tactical_weight
  gate_v34 config (g ∷ weak) = shrink config (g ∷ weak)

  -- on the rows that the lookup finds
  abbrev pub gate_found : Config fl names → List GroupRow → Config fl names
  gate_found config [] = config
  gate_found config (r ∷ rows) = gate_v34 config (weak_groups (r ∷ rows))

  unfoldable pub apply_group_gate : Config fl names → List GroupRow → ℕ → Config fl names
  unfolding lookup_group_rows weak_groups
  apply_group_gate config group_rows td = gate_found config (lookup_group_rows group_rows td)

  -- `reentry_trigger != "NONE"`
  abbrev pub reentry : ShortSignal → MidRegime → ℕ → Bool
  reentry short MidRegime.risk_on streak = true
  reentry ShortSignal.relief mid streak = leb 2 streak
  reentry short mid streak = false

  -- v3.4.1: two weak groups start the reduction, and only a re-entry ends it
  abbrev pub should_de_risk : Bool → Bool → ℕ → Bool
  should_de_risk trigger active weak_count = not trigger && (active || leb 2 weak_count)

  abbrev pub gate_v341 : Config fl names → List G → Bool → Config fl names × Bool
  gate_v341 config weak de_risk = (if de_risk then shrink config weak else config, de_risk)

  abbrev pub gate_found_v341 :
      Config fl names → List GroupRow → Bool → Bool → Config fl names × Bool
  gate_found_v341 config [] trigger active = (config, false)
  gate_found_v341 config (r ∷ rows) trigger active =
      let weak = weak_groups (r ∷ rows) in
      gate_v341 config weak (should_de_risk trigger active (length weak))

  unfoldable pub apply_group_gate_v341 :
      Config fl names
      → List GroupRow
      → ℕ
      → ShortSignal
      → MidRegime
      → ℕ
      → Bool
      → Config fl names × Bool
  unfolding lookup_group_rows weak_groups
  apply_group_gate_v341 config group_rows td short mid streak active =
      gate_found_v341 config (lookup_group_rows group_rows td) (reentry short mid streak) active
