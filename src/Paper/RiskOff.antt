-- ===== src/Paper/RiskOff.antt =====
-- What the gates of a day leave of the tactical part of the target weights.
use pretrend_ai.Base.{
  ℕ, zero, suc, Bool, true, ◌≡◌, refl, ap, ◌∙◌, Option, List, [], ◌∷◌, take, length, if_cases,
}
use pretrend_ai.Base.Int.{pos_part, pos}
use pretrend_ai.Base.Float.{FloatOps}
use pretrend_ai.Base.AsOf.{latest_row}
use pretrend_ai.Regime.Labels.{Bias}
use pretrend_ai.Backtest.Rebalancer.{
  Names, Preset, v3_4_1, v3_4_2a, other_preset, Config, UniverseRow, PolicyRow, Weights,
  active_weights, should_run_tactical, affordable, place, pick_tactical, apply_tactical,
  sum_weights, sum_deductable, compute_target_weights,
}
use pretrend_ai.Paper.Gates.{
  NextStep, GroupRow, bias_of_day, apply_soft_gate, with_groups, allowed_groups, gate_v34,
  apply_group_gate, gate_found, gate_found_v341, should_de_risk, apply_group_gate_v341,
  lookup_group_rows, weak_groups, reentry, shrink,
}
use pretrend_ai.Paper.Simulation.{Settings, Account}
use pretrend_ai.Paper.Simulation.Day.{group_gated, gate_config, short_of, mid_of, next_relief}

take-nil : {A : Type 0} (n : ℕ) → take {A = A} n [] ≡ []
take-nil zero = refl
take-nil (suc n) = refl

module _ (fl : FloatOps) (names : Names) where
  open fl use {F, lit, le}
  open names use {S, G}

  -- No slot is left, and the core weights are those of the base.
  record IsCoreOnly (base config : Config fl names) : Type 0 where
    slots : config.max_tactical_slots ≡ 0
    initial : config.initial_weights ≡ base.initial_weights
    pre_schd : config.pre_schd_weights ≡ base.pre_schd_weights
    start : config.schd_start_date ≡ base.schd_start_date

  groups-IsCoreOnly :
      (base config : Config fl names) (gs : List G) (slots : ℕ) (weight : F)
      → slots ≡ 0
      → IsCoreOnly base config
      → IsCoreOnly base (with_groups fl names config gs slots weight)
  groups-IsCoreOnly base config [] slots weight e h = record {
    slots = refl;
    initial = h.initial;
    pre_schd = h.pre_schd;
    start = h.start;
  }
  groups-IsCoreOnly base config (g ∷ gs) slots weight e h = record {
    slots = e;
    initial = h.initial;
    pre_schd = h.pre_schd;
    start = h.start;
  }

  shrink-IsCoreOnly :
      (base config : Config fl names) (weak : List G)
      → IsCoreOnly base config
      → IsCoreOnly base (shrink fl names config weak)
  shrink-IsCoreOnly base config weak h =
      groups-IsCoreOnly base config (allowed_groups fl names config weak) _ _ (rw h.slots refl) h

  weak-IsCoreOnly :
      (base config : Config fl names) (weak : List G)
      → IsCoreOnly base config
      → IsCoreOnly base (gate_v34 fl names config weak)
  weak-IsCoreOnly base config [] h =
      groups-IsCoreOnly base config (allowed_groups fl names config []) _ _ h.slots h
  weak-IsCoreOnly base config (g ∷ weak) h = shrink-IsCoreOnly base config (g ∷ weak) h

  found-IsCoreOnly :
      (base config : Config fl names) (rows : List (GroupRow fl names))
      → IsCoreOnly base config
      → IsCoreOnly base (gate_found fl names config rows)
  found-IsCoreOnly base config [] h = h
  found-IsCoreOnly base config (r ∷ rows) h =
      weak-IsCoreOnly base config (weak_groups fl names (r ∷ rows)) h

  found_v341-IsCoreOnly :
      (base config : Config fl names) (rows : List (GroupRow fl names)) (trigger active : Bool)
      → IsCoreOnly base config
      → IsCoreOnly base (gate_found_v341 fl names config rows trigger active).0
  found_v341-IsCoreOnly base config [] trigger active h = h
  found_v341-IsCoreOnly base config (r ∷ rows) trigger active h =
      let weak = weak_groups fl names (r ∷ rows) in
      if_cases (IsCoreOnly base) (should_de_risk fl names trigger active (length weak))
        (shrink fl names config weak) config (λ e. shrink-IsCoreOnly base config weak h) (λ e. h)

  gated-IsCoreOnly :
      (settings : Settings fl names) (td : ℕ) (policy : Option PolicyRow) (streak : ℕ)
      (active : Bool) (soft : Config fl names) (preset : Preset)
      → IsCoreOnly settings.config soft
      → IsCoreOnly settings.config
          (group_gated fl names settings td policy streak active soft preset).config
  unfolding apply_group_gate apply_group_gate_v341
  gated-IsCoreOnly settings td policy streak active soft v3_4_1 h =
      found_v341-IsCoreOnly settings.config soft (lookup_group_rows fl names settings.groups td)
        (reentry fl names (short_of policy) (mid_of policy) streak) active h
  gated-IsCoreOnly settings td policy streak active soft v3_4_2a h =
      found-IsCoreOnly settings.config soft (lookup_group_rows fl names settings.groups td) h
  gated-IsCoreOnly settings td policy streak active soft other_preset h =
      found-IsCoreOnly settings.config soft (lookup_group_rows fl names settings.groups td) h

  soft-IsCoreOnly :
      (config : Config fl names)
      → IsCoreOnly config (apply_soft_gate fl names config Bias.risk_off_bias)
  unfolding apply_soft_gate
  soft-IsCoreOnly config = record { slots = refl; initial = refl; pre_schd = refl; start = refl }

  config-IsCoreOnly :
      (settings : Settings fl names) (td : ℕ) (policy : Option PolicyRow) (a : Account fl names)
      → settings.enable_predictor_gate ≡ true
      → bias_of_day settings.config.preset_name
          (latest_row (λ (r : NextStep). r.date) td settings.next_steps)
        ≡ Bias.risk_off_bias
      → IsCoreOnly settings.config (gate_config fl names settings td policy a).config
  unfolding gate_config
  config-IsCoreOnly settings td policy a e b =
      rw (e, b)
        (gated-IsCoreOnly settings td policy (next_relief (short_of policy) a.relief_streak)
          a.group_gate_active (apply_soft_gate fl names settings.config Bias.risk_off_bias)
          settings.config.preset_name (soft-IsCoreOnly settings.config))

  core_same :
      (base config : Config fl names) (td : ℕ)
      → IsCoreOnly base config
      → active_weights fl names config td ≡ active_weights fl names base td
  core_same base config td h = rw (h.initial, h.pre_schd, h.start) refl

  nothing_picked :
      (universe : List (UniverseRow fl names)) (prices : List (S × F)) (config : Config fl names)
      (td : ℕ)
      → config.max_tactical_slots ≡ 0
      → pick_tactical fl names universe prices config td ≡ []
  unfolding pick_tactical
  nothing_picked universe prices config td e = rw (pick_tactical, e) refl

  nothing_placed :
      (base : Weights fl names) (config : Config fl names)
      → apply_tactical fl names base [] config ≡ base
  unfolding apply_tactical
  nothing_placed base config =
      let core_total = sum_weights fl names (lit 0 0) base in
      let most = sum_deductable fl names (lit 0 0) base in
      let symbols : affordable fl names most config.tactical_weight [] ≡ [] =
        if_cases (λ ss. ss ≡ []) (fl.lt most (fl.mul (fl.of_int (pos 0)) config.tactical_weight))
          (take (pos_part (fl.trunc (fl.div most config.tactical_weight))) []) []
          (λ e. take-nil (pos_part (fl.trunc (fl.div most config.tactical_weight)))) (λ e. refl) in
      if_cases (λ ws. ws ≡ base) (le core_total (lit 0 0)) base
        (place fl names base core_total config.tactical_weight
          (affordable fl names most config.tactical_weight []))
        (λ e. refl) (λ e. rw symbols refl)

  -- With the gate of the signal enabled, a day whose bias is RISK_OFF_BIAS has no tactical position: its target
  -- weights are the core weights of the configuration.
  pub risk_off_keeps_core :
      (settings : Settings fl names) (td : ℕ) (policy : Option PolicyRow) (a : Account fl names)
      (next_ratio : Option F) (universe : List (UniverseRow fl names)) (prices : List (S × F))
      → settings.enable_predictor_gate ≡ true
      → bias_of_day settings.config.preset_name
          (latest_row (λ (r : NextStep). r.date) td settings.next_steps)
        ≡ Bias.risk_off_bias
      → let config = (gate_config fl names settings td policy a).config in
        (compute_target_weights fl names td policy next_ratio universe config prices).1
        ≡ active_weights fl names settings.config td
  unfolding compute_target_weights
  risk_off_keeps_core settings td policy a next_ratio universe prices e b =
      let config = (gate_config fl names settings td policy a).config in
      let h = config-IsCoreOnly settings td policy a e b in
      let core = active_weights fl names config td in
      if_cases (λ ws. ws ≡ active_weights fl names settings.config td)
        (should_run_tactical fl names policy)
        (apply_tactical fl names core (pick_tactical fl names universe prices config td) config)
        core
        (λ r.
          ap (λ ss. apply_tactical fl names core ss config)
            (nothing_picked universe prices config td h.slots)
          ∙ nothing_placed core config
          ∙ core_same settings.config config td h)
        (λ r. core_same settings.config config td h)
