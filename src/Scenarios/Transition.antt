-- ===== src/Scenarios/Transition.antt =====
-- The next-step signal on concrete days: a RISK_ON bias, a Monday of panic, and the week after it.
use pretrend_ai.Base.{
  ℕ, zero, ◌≤◌, ◌≡◌, ◌≢◌, refl, ◌⊎◌, true, false, none, List, [], ◌∷◌, All, arith,
}
use pretrend_ai.Base.Float.{decimal}
use pretrend_ai.Base.Int.{negsuc}
use pretrend_ai.Regime.Labels.{LongPhase, MidRegime, ShortSignal, Bias}
use pretrend_ai.Regime.Transition.Score.{compute_overlay_score, resolve_phase_baseline}
use pretrend_ai.Regime.Transition.Hysteresis.{
  Decision, apply_hysteresis, weekly_candidate, with_hysteresis,
}
use pretrend_ai.Regime.Transition.Signal.{
  Observed, Loop, Slots, SignalRow, run_universe_at, signal_step, signal_loop, initial,
}
use pretrend_ai.Regime.Transition.Switching.{switch_needs_monday_or_gate}
use pretrend_ai.Regime.Transition.Runs.{signal_loop_bounds, cooldown_protects, weekly_switch_lasts}

-- From RISK_ON, on a Monday of panic in a risk-off regime, with no cooldown and an open gate.
abbrev turn : Decision
turn =
    apply_hysteresis decimal Bias.risk_on_bias Bias.neutral_bias (negsuc 3) 0 true
      MidRegime.risk_off ShortSignal.panic none true

turn_bias : turn.bias ≡ Bias.risk_off_bias
unfolding apply_hysteresis weekly_candidate with_hysteresis
turn_bias = refl

switch_needs_monday_or_gate_example : (true ≡ false) ⊎ ((true ≡ true) × (zero ≡ 0))
unfolding apply_hysteresis weekly_candidate with_hysteresis
switch_needs_monday_or_gate_example =
    switch_needs_monday_or_gate decimal Bias.risk_on_bias Bias.neutral_bias (negsuc 3) 0 true
      MidRegime.risk_off ShortSignal.panic none true (λ e. ground arith) (λ e. ground arith)

abbrev slots : Slots
slots = record {
  long_macro = true;
  mid_macro = true;
  mid_price = true;
  short_primary = true;
  mid_breadth = false;
  short_secondary = false;
  short_risk_on = false;
}

abbrev day : ℕ → MidRegime → ShortSignal → Observed
day d mid short = record {
  trade_date = d;
  long_phase = LongPhase.slowdown;
  mid_regime = mid;
  short_signal = short;
  slots = slots;
}

abbrev running : Loop
running = record {
  prev_bias = Bias.risk_on_bias;
  cooldown_left = 2;
  prev_run_universe = true;
  relief_streak = 0;
}

abbrev settled : Loop
settled = record {
  prev_bias = Bias.risk_on_bias;
  cooldown_left = 0;
  prev_run_universe = true;
  relief_streak = 0;
}

-- day 8 is a Monday
abbrev monday : Observed
monday = day 8 MidRegime.risk_off ShortSignal.panic

abbrev week : List Observed
week = day 9 MidRegime.neutral ShortSignal.relief ∷ day 15 MidRegime.risk_on ShortSignal.relief ∷ []

signal_loop_bounds_example :
    All
      (λ (r : SignalRow decimal). (r.decision.bias ≢ Bias.unknown) × (r.decision.cooldown_left ≤ 5))
      (signal_loop decimal initial (monday ∷ week) [] ((8, true) ∷ []))
signal_loop_bounds_example =
    signal_loop_bounds decimal initial (monday ∷ week) [] ((8, true) ∷ []) (omega arith)

cooldown_protects_example :
    All
      (λ (r : SignalRow decimal). r.decision.bias ≡ Bias.risk_on_bias)
      (signal_loop decimal running week [] ((8, true) ∷ []))
unfolding run_universe_at
cooldown_protects_example =
    cooldown_protects decimal running week [] ((8, true) ∷ []) (λ e. ground arith) (omega arith)
      (refl, (refl, tt))

monday_switches : (signal_step decimal settled monday none true).1.decision.switched ≡ true
unfolding signal_step apply_hysteresis weekly_candidate with_hysteresis compute_overlay_score
    resolve_phase_baseline
monday_switches = refl

weekly_switch_lasts_example :
    All
      (λ (r : SignalRow decimal).
        r.decision.bias ≡ (signal_step decimal settled monday none true).1.decision.bias)
      (signal_loop decimal
        (signal_step decimal settled monday none true).0
        week
        []
        ((8, true) ∷ []))
unfolding run_universe_at
weekly_switch_lasts_example =
    weekly_switch_lasts decimal settled monday week [] ((8, true) ∷ []) none monday_switches
      (omega arith) (refl, (refl, tt))
