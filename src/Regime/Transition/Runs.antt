-- ===== src/Regime/Transition/Runs.antt =====
-- What holds along whole runs of the next-step signal loop.
use pretrend_ai.Base.{
  ℕ, ◌-◌, ◌≤◌, ◌<◌, ◌≡◌, ◌≢◌, Bool, true, Option, List, [], ◌∷◌, length, All, All-mono, arith, ◌∙◌,
  sym, refl,
}
use pretrend_ai.Base.Float.{FloatOps}
use pretrend_ai.Base.Int.{ℤ}
use pretrend_ai.Regime.Labels.{LongPhase, MidRegime, ShortSignal, Bias}
use pretrend_ai.Regime.Episodes.{Stats}
use pretrend_ai.Regime.Transition.Score.{h10, compute_overlay_score, resolve_phase_baseline}
use pretrend_ai.Regime.Transition.Hysteresis.{apply_hysteresis}
use pretrend_ai.Regime.Transition.Signal.{
  StateKey, Observed, Loop, SignalRow, find, run_universe_at, hazard_at, is_monday, signal_step,
  signal_loop,
}

resolve_phase_baseline-known : (phase : LongPhase) → resolve_phase_baseline phase ≢ Bias.unknown
unfolding resolve_phase_baseline
resolve_phase_baseline-known phase = ground arith

module _ (fl : FloatOps) where
  hysteresis_bounds :
      (prev base : Bias) (score : ℤ) (left : ℕ) (monday : Bool) (mid : MidRegime)
      (short : ShortSignal) (hazard : Option fl.F) (run : Bool)
      → base ≢ Bias.unknown
      → left ≤ 5
      → let d = apply_hysteresis fl prev base score left monday mid short hazard run in
        (d.bias ≢ Bias.unknown) × (d.cooldown_left ≤ 5)
  unfolding apply_hysteresis
  hysteresis_bounds prev base score left monday mid short hazard run h k =
      (λ e. ground arith, ground arith)

  step_bounds :
      (s : Loop) (row : Observed) (hist : Option (Stats StateKey)) (run : Bool)
      → s.cooldown_left ≤ 5
      → let (s', out) = signal_step fl s row hist run in
        (s'.cooldown_left ≤ 5)
        × (out.decision.bias ≢ Bias.unknown)
        × (out.decision.cooldown_left ≤ 5)
  unfolding signal_step
  step_bounds s row hist run h =
      let b = hysteresis_bounds _ _ _ _ _ _ _ _ _ (resolve_phase_baseline-known row.long_phase) h in
      (b.1, b.0, b.1)

  -- From any state whose cooldown is at most 5, the initial one included, every row of the signal
  -- carries a known 20-day bias and a cooldown of at most 5.
  pub signal_loop_bounds :
      (s : Loop) (rows : List Observed) (hist : List (ℕ × Stats StateKey)) (mp : List (ℕ × Bool))
      → s.cooldown_left ≤ 5
      → All
          (λ (r : SignalRow fl). (r.decision.bias ≢ Bias.unknown) × (r.decision.cooldown_left ≤ 5))
          (signal_loop fl s rows hist mp)
  unfolding signal_loop
  signal_loop_bounds s [] hist mp h = tt
  signal_loop_bounds s (row ∷ rows) hist mp h =
      let hs = find row.trade_date hist in
      let run = run_universe_at row.trade_date mp true in
      let b = step_bounds s row hs run h in
      ((b.1, b.2), signal_loop_bounds (signal_step fl s row hs run).0 rows hist mp b.0)

  held_step :
      (s : Loop) (row : Observed) (hist : Option (Stats StateKey)) (run : Bool)
      → s.prev_bias ≢ Bias.unknown
      → 0 < s.cooldown_left
      → run ≡ true
      → let (s', out) = signal_step fl s row hist run in
        (s'.prev_bias ≡ s.prev_bias)
        × (s'.cooldown_left ≡ s.cooldown_left - 1)
        × (out.decision.bias ≡ s.prev_bias)
  unfolding signal_step apply_hysteresis
  held_step s row hist run p q r = (ground arith, ground arith, ground arith)

  abbrev IsOpen : List (ℕ × Bool) → Observed → Type 0
  IsOpen mp row = run_universe_at row.trade_date mp true ≡ true

  -- A known bias is kept on every row of a run that is no longer than the cooldown, while the gate
  -- stays open.
  pub cooldown_protects :
      (s : Loop) (rows : List Observed) (hist : List (ℕ × Stats StateKey)) (mp : List (ℕ × Bool))
      → s.prev_bias ≢ Bias.unknown
      → length rows ≤ s.cooldown_left
      → All (IsOpen mp) rows
      → All (λ (r : SignalRow fl). r.decision.bias ≡ s.prev_bias) (signal_loop fl s rows hist mp)
  unfolding signal_loop
  cooldown_protects s [] hist mp p q o = tt
  cooldown_protects s (row ∷ rows) hist mp p q o =
      let hs = find row.trade_date hist in
      let run = run_universe_at row.trade_date mp true in
      let step = held_step s row hs run p (omega arith) o.0 in
      let s' = (signal_step fl s row hs run).0 in
      let rest =
        cooldown_protects s' rows hist mp (λ e. p (sym step.0 ∙ e)) (omega (arith, step.1)) o.1 in
      (
        step.2,
        All-mono (λ (r : SignalRow fl). r.decision.bias ≡ s'.prev_bias)
            (λ (r : SignalRow fl). r.decision.bias ≡ s.prev_bias) (λ r e. e ∙ step.0) _ rest,
      )

  hysteresis_switch :
      (prev base : Bias) (score : ℤ) (left : ℕ) (monday : Bool) (mid : MidRegime)
      (short : ShortSignal) (hazard : Option fl.F)
      → base ≢ Bias.unknown
      → (apply_hysteresis fl prev base score left monday mid short hazard true).switched ≡ true
      → let d = apply_hysteresis fl prev base score left monday mid short hazard true in
        (d.bias ≢ Bias.unknown) × (d.cooldown_left ≡ 5)
  unfolding apply_hysteresis
  hysteresis_switch prev base score left monday mid short hazard h k =
      (λ e. ground arith, ground arith)

  switch_sets_cooldown :
      (s : Loop) (row : Observed) (hist : Option (Stats StateKey))
      → (signal_step fl s row hist true).1.decision.switched ≡ true
      → let (s', out) = signal_step fl s row hist true in
        (s'.prev_bias ≢ Bias.unknown) × (s'.cooldown_left ≡ 5)
  unfolding signal_step
  switch_sets_cooldown s row hist h =
      hysteresis_switch s.prev_bias (resolve_phase_baseline row.long_phase)
        (compute_overlay_score fl row.mid_regime row.short_signal (hazard_at fl hist h10))
        s.cooldown_left (is_monday row.trade_date) row.mid_regime row.short_signal
        (hazard_at fl hist h10) (resolve_phase_baseline-known row.long_phase) h

  prev_bias-signal_step :
      (s : Loop) (row : Observed) (hist : Option (Stats StateKey)) (run : Bool)
      → (signal_step fl s row hist run).0.prev_bias
        ≡ (signal_step fl s row hist run).1.decision.bias
  unfolding signal_step
  prev_bias-signal_step s row hist run = refl

  -- When the weekly decision of an open-gate row switches the bias, the new bias stands on each of
  -- the next rows, up to five of them, whose gate is open.
  pub weekly_switch_lasts :
      (s : Loop) (row : Observed) (rows : List Observed) (hist : List (ℕ × Stats StateKey))
      (mp : List (ℕ × Bool)) (now : Option (Stats StateKey))
      → (signal_step fl s row now true).1.decision.switched ≡ true
      → length rows ≤ 5
      → All (IsOpen mp) rows
      → All
          (λ (r : SignalRow fl). r.decision.bias ≡ (signal_step fl s row now true).1.decision.bias)
          (signal_loop fl (signal_step fl s row now true).0 rows hist mp)
  weekly_switch_lasts s row rows hist mp now sw n o =
      let st = signal_step fl s row now true in
      let (known, five) = switch_sets_cooldown s row now sw in
      All-mono (λ (r : SignalRow fl). r.decision.bias ≡ st.0.prev_bias)
        (λ (r : SignalRow fl). r.decision.bias ≡ st.1.decision.bias)
        (λ r e. e ∙ prev_bias-signal_step s row now true) _
        (cooldown_protects st.0 rows hist mp known (omega (arith, five)) o)
