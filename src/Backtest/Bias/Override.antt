-- ===== src/Backtest/Bias/Override.antt =====
-- How long a shock override of src/pretrend/pipeline/backtest/runner.py lasts.
use mathlib.Core.Path.{subst}
use pretrend_ai.Base.{
  ℕ, suc, ◌-◌, ◌≤◌, ◌≡◌, refl, sym, ◌∙◌, ap, ◌⊎◌, inl, inr, Bool, true, false, ◌&&◌, ltb, leb,
  lt→ltb, Option, none, some, List, [], ◌∷◌, All, length, if_cases, arith,
}
use pretrend_ai.Base.Float.{FloatOps}
use pretrend_ai.Regime.Labels.{Bias, ShortSignal, MidRegime}
use pretrend_ai.Backtest.Bias.{
  Source, Reason, Effective, Shock, resolve_effective_bias_v32, panic_count, risk_off_count,
  get_signal_row, short_of, mid_of, triggered,
}
use pretrend_ai.Backtest.Bias.Day.{
  same_month, locked_effective, BiasState, Frames, with_shock, with_hazard,
  lookup_next_step_hazard10, shock_day, shock_turn, bias_day, bias_run,
}
use pretrend_ai.Backtest.Bias.Lock.{same_month-some, bias_day-same, SameLock, shock_turn-SameLock}

-- What the override in force decides.
abbrev pub overriding : Shock → Effective
overriding s = record {
  bias = s.override_bias;
  source = Source.override;
  reason = s.override_reason;
}

-- The override after one more day.
abbrev counted : ShortSignal → MidRegime → Shock → Shock
counted short mid s = record {
  panic_streak = panic_count short s.panic_streak;
  risk_off_streak = risk_off_count mid s.risk_off_streak;
  override_days_left = s.override_days_left - 1;
  override_bias = s.override_bias;
  override_reason = s.override_reason;
}

-- A shock of panic.
abbrev pub panic_shock : Shock
panic_shock = (triggered Bias.risk_off_bias Reason.panic 2 0).1

resolve-panic :
    (b : Bias) (short : ShortSignal) (mid : MidRegime) (s : Shock)
    → short ≡ ShortSignal.panic
    → s.override_days_left ≡ 0
    → 1 ≤ s.panic_streak
    → resolve_effective_bias_v32 b short mid s
      ≡ triggered Bias.risk_off_bias Reason.panic
          (suc s.panic_streak)
          (risk_off_count mid s.risk_off_streak)
unfolding resolve_effective_bias_v32
resolve-panic b short mid s q z p =
    let two : leb 2 (suc s.panic_streak) ≡ true = ground arith in rw (q, z, two) refl

resolve-overriding :
    (b : Bias) (short : ShortSignal) (mid : MidRegime) (s : Shock)
    → ltb 0 s.override_days_left ≡ true
    → resolve_effective_bias_v32 b short mid s ≡ (overriding s, counted short mid s)
unfolding resolve_effective_bias_v32
resolve-overriding b short mid s h = rw h refl

module _ (fl : FloatOps) {R : Type 0} (f : Frames fl R) where
  open fl use {F, lt}

  -- The hazard of the day is below the threshold, and the locked bias decides.
  abbrev pub Lifted : BiasState fl → Type 0
  Lifted t =
      (f.modes.use_hazard_gate_v33 ≡ true)
      × ((v : F) × (t.hazard_value_10d ≡ some v)
          × (lt v f.hazard_threshold_10d ≡ true)
          × (t.effective ≡ locked_effective t.locked_bias Reason.hazard_low))

  -- The day's bias is that of the override, or the hazard lifts it.
  unfoldable pub Ruled : Shock → BiasState fl → Type 0
  Ruled s t = (t.effective ≡ overriding s) ⊎ Lifted t

  Ruled-moved :
      (s r : Shock) (t : BiasState fl) → overriding s ≡ overriding r → Ruled s t → Ruled r t
  unfolding Ruled
  Ruled-moved s r t e (inl h) = inl (h ∙ e)
  Ruled-moved s r t e (inr h) = inr h

  -- The override is one day shorter.
  abbrev Shorter : BiasState fl → BiasState fl → Type 0
  Shorter s t =
      (t.locked_month ≡ s.locked_month)
      × (overriding t.shock ≡ overriding s.shock)
      × (t.shock.override_days_left ≡ s.shock.override_days_left - 1)

  unfoldable Standing : BiasState fl → BiasState fl → Type 0
  unfolding Ruled
  Standing s t = Shorter s t × Ruled s.shock t

  hazard-Ruled :
      (v : F) (s : Shock) (t : BiasState fl) (b : Bool)
      → f.modes.use_hazard_gate_v33 ≡ true
      → t.effective ≡ overriding s
      → lt v f.hazard_threshold_10d ≡ b
      → Ruled s (with_hazard fl f.hazard_threshold_10d (some v) t)
  unfolding Ruled
  hazard-Ruled v s t true u h e = inr (u, (v, refl, e, rw e refl))
  hazard-Ruled v s t false u h e = inl (rw e h)

  hazard-Standing :
      (v : Option F) (s t : BiasState fl)
      → f.modes.use_hazard_gate_v33 ≡ true
      → t.effective ≡ overriding s.shock
      → Shorter s t
      → Standing s (with_hazard fl f.hazard_threshold_10d v t)
  unfolding Standing Ruled
  hazard-Standing none s t u h k = (k, inl h)
  hazard-Standing (some v) s t u h k = (k, hazard-Ruled v s.shock t _ u h refl)

  shock_day-Standing :
      (td : ℕ) (s : BiasState fl)
      → ltb 0 s.shock.override_days_left ≡ true
      → Standing s (shock_day fl f td s)
  unfolding shock_day Standing Ruled
  shock_day-Standing td s h =
      let today = get_signal_row f.newer f.policy_df td in
      let t =
        with_shock fl s (overriding s.shock, counted (short_of today) (mid_of today) s.shock) in
      let v = lookup_next_step_hazard10 fl f.next_step_df td in
      rw (resolve-overriding s.locked_bias (short_of today) (mid_of today) s.shock h) (
        if_cases (Standing s) (f.modes.use_hazard_gate_v33 && true)
          (with_hazard fl f.hazard_threshold_10d v t) t
          (λ k. hazard-Standing v s t (ground arith) refl (refl, refl, refl))
          (λ k. ((refl, refl, refl), inl refl)))

  bias_day-Standing :
      (m td : ℕ) (s : BiasState fl)
      → f.modes.use_shock_override_v32 ≡ true
      → s.locked_month ≡ some m
      → f.month td ≡ m
      → ltb 0 s.shock.override_days_left ≡ true
      → Standing s (bias_day fl f td s)
  bias_day-Standing m td s u e k h =
      let same = ap (same_month (f.month td)) e ∙ same_month-some (f.month td) m k in
      subst (Standing s) (sym (bias_day-same fl f td s same)) (
        if_cases (Standing s) f.modes.use_shock_override_v32 (shock_day fl f td s) s
          (λ b. shock_day-Standing td s h) (λ b. absurd (ground arith)))

  -- Under the shock override, on each of the days that an override has left in the locked month, the
  -- bias is the override's whatever the signals of the days are, unless the hazard gate is used and
  -- reads a hazard below its threshold, and then it is the locked bias.
  override_lasts :
      (m : ℕ) (tds : List ℕ) (td : ℕ) (s : BiasState fl)
      → f.modes.use_shock_override_v32 ≡ true
      → s.locked_month ≡ some m
      → All (λ d. f.month d ≡ m) tds
      → f.month td ≡ m
      → suc (length tds) ≤ s.shock.override_days_left
      → Ruled s.shock (bias_day fl f td (bias_run fl f tds s))
  unfolding bias_run Standing
  override_lasts m [] td s u e h k n = (bias_day-Standing m td s u e k (lt→ltb _ _ n)).1
  override_lasts m (d ∷ tds) td s u e h k n =
      let day = bias_day-Standing m d s u e h.0 (lt→ltb _ _ (omega arith)) in
      let t = bias_day fl f d s in
      let left : suc (length tds) ≤ t.shock.override_days_left =
        (let same = day.0.2 in omega arith) in
      Ruled-moved t.shock s.shock (bias_day fl f td (bias_run fl f tds t)) day.0.1
        (override_lasts m tds td t u (day.0.0 ∙ e) h.1 k left)

  hazard-shock :
      (v : Option F) (t : BiasState fl)
      → (with_hazard fl f.hazard_threshold_10d v t).shock ≡ t.shock
  hazard-shock none t = refl
  hazard-shock (some v) t = refl

  shock_day-shock :
      (td : ℕ) (s : BiasState fl)
      → (shock_day fl f td s).shock
        ≡ (resolve_effective_bias_v32 s.locked_bias
            (short_of (get_signal_row f.newer f.policy_df td))
            (mid_of (get_signal_row f.newer f.policy_df td))
            s.shock).1
  unfolding shock_day
  shock_day-shock td s =
      let today = get_signal_row f.newer f.policy_df td in
      let r = resolve_effective_bias_v32 s.locked_bias (short_of today) (mid_of today) s.shock in
      let t = with_shock fl s r in
      let v = lookup_next_step_hazard10 fl f.next_step_df td in
      if_cases (λ (x : BiasState fl). x.shock ≡ r.1)
        (f.modes.use_hazard_gate_v33 && t.override_applied)
        (with_hazard fl f.hazard_threshold_10d v t) t (λ k. hazard-shock v t) (λ k. refl)

  turn-shock :
      (td : ℕ) (s : BiasState fl)
      → f.modes.use_shock_override_v32 ≡ true
      → (shock_turn fl f td s).shock
        ≡ (resolve_effective_bias_v32 s.locked_bias
            (short_of (get_signal_row f.newer f.policy_df td))
            (mid_of (get_signal_row f.newer f.policy_df td))
            s.shock).1
  turn-shock td s u =
      let today = get_signal_row f.newer f.policy_df td in
      let r = resolve_effective_bias_v32 s.locked_bias (short_of today) (mid_of today) s.shock in
      if_cases (λ (t : BiasState fl). t.shock ≡ r.1) f.modes.use_shock_override_v32
        (shock_day fl f td s) s (λ b. shock_day-shock td s) (λ b. absurd (ground arith))

  -- A second PANIC in a row, in the locked month and with no override in force, lets RISK_OFF rule each
  -- of the next five days of the month under the shock override, whatever their signals are, unless the
  -- hazard gate is used and reads a hazard below its threshold.
  pub panic_rules_five_days :
      (m d : ℕ) (tds : List ℕ) (td : ℕ) (s : BiasState fl)
      → f.modes.use_shock_override_v32 ≡ true
      → s.locked_month ≡ some m
      → f.month d ≡ m
      → All (λ x. f.month x ≡ m) tds
      → f.month td ≡ m
      → s.shock.override_days_left ≡ 0
      → 1 ≤ s.shock.panic_streak
      → short_of (get_signal_row f.newer f.policy_df d) ≡ ShortSignal.panic
      → length tds ≤ 4
      → Ruled panic_shock (bias_day fl f td (bias_run fl f (d ∷ tds) s))
  unfolding bias_run SameLock
  panic_rules_five_days m d tds td s u e k h l z p q n =
      let same = ap (same_month (f.month d)) e ∙ same_month-some (f.month d) m k in
      let t = bias_day fl f d s in
      let turned = bias_day-same fl f d s same in
      let month =
        ap (λ (x : BiasState fl). x.locked_month) turned ∙ (shock_turn-SameLock fl f d s).0 ∙ e in
      let today = get_signal_row f.newer f.policy_df d in
      let shock =
        ap (λ (x : BiasState fl). x.shock) turned
        ∙ turn-shock d s u
        ∙ ap (λ (x : Effective × Shock). x.1)
            (resolve-panic s.locked_bias (short_of today) (mid_of today) s.shock q z p) in
      let left : suc (length tds) ≤ t.shock.override_days_left = rw shock (omega arith) in
      Ruled-moved t.shock panic_shock (bias_day fl f td (bias_run fl f tds t)) (ap overriding shock)
        (override_lasts m tds td t u month h l left)
