-- ===== src/Backtest/Bias/Lock.antt =====
-- How long the monthly lock of src/pretrend/pipeline/backtest/runner.py lasts.
use pretrend_ai.Base.{
  ℕ, ◌≡◌, refl, ◌∙◌, ap, Bool, true, false, ◌&&◌, Option, none, some, List, [], ◌∷◌, All, if_cases,
  arith,
}
use pretrend_ai.Base.Float.{FloatOps}
use pretrend_ai.Regime.Labels.{Bias}
use pretrend_ai.Backtest.Bias.{resolve_effective_bias_v32, get_signal_row, short_of, mid_of}
use pretrend_ai.Backtest.Bias.Day.{
  same_month, known_lock, BiasState, Frames, with_shock, with_hazard, with_lock,
  lookup_next_step_bias, lookup_next_step_hazard10, lock_day, shock_day, lock_turn, shock_turn,
  bias_day, bias_run,
}

pub same_month-some : (m n : ℕ) → m ≡ n → same_month m (some n) ≡ true
same_month-some m n e = ground arith

module _ (fl : FloatOps) {R : Type 0} (f : Frames fl R) where
  open fl use {F}

  unfoldable pub SameLock : BiasState fl → BiasState fl → Type 0
  SameLock s t = (t.locked_month ≡ s.locked_month) × (t.locked_bias ≡ s.locked_bias)

  hazard-SameLock :
      (v : Option F) (s t : BiasState fl)
      → SameLock s t
      → SameLock s (with_hazard fl f.hazard_threshold_10d v t)
  unfolding SameLock
  hazard-SameLock none s t h = h
  hazard-SameLock (some v) s t h = h

  pub shock_turn-SameLock : (td : ℕ) (s : BiasState fl) → SameLock s (shock_turn fl f td s)
  unfolding SameLock shock_day
  shock_turn-SameLock td s =
      let today = get_signal_row f.newer f.policy_df td in
      let t =
        with_shock fl s
          (resolve_effective_bias_v32 s.locked_bias (short_of today) (mid_of today) s.shock) in
      if_cases (SameLock s) f.modes.use_shock_override_v32 (shock_day fl f td s) s
        (λ h.
          if_cases (SameLock s) (f.modes.use_hazard_gate_v33 && t.override_applied)
            (with_hazard fl f.hazard_threshold_10d (lookup_next_step_hazard10 fl f.next_step_df td)
              t)
            t
            (λ k. hazard-SameLock (lookup_next_step_hazard10 fl f.next_step_df td) s t (refl, refl))
            (λ k. (refl, refl)))
        (λ h. (refl, refl))

  -- On a day of the locked month the lock is as it was.
  lock_turn-same :
      (td : ℕ) (s : BiasState fl)
      → same_month (f.month td) s.locked_month ≡ true
      → lock_turn fl f td s ≡ s
  unfolding lock_day
  lock_turn-same td s h =
      if_cases (λ t. t ≡ s) f.modes.use_monthly_bias_lock (lock_day fl f td s) s (λ k. rw h refl)
        (λ k. refl)

  pub bias_day-same :
      (td : ℕ) (s : BiasState fl)
      → same_month (f.month td) s.locked_month ≡ true
      → bias_day fl f td s ≡ shock_turn fl f td s
  unfolding bias_day
  bias_day-same td s h = ap (shock_turn fl f td) (lock_turn-same td s h)

  run_in_month :
      (m : ℕ) (tds : List ℕ) (s : BiasState fl)
      → s.locked_month ≡ some m
      → All (λ d. f.month d ≡ m) tds
      → (bias_run fl f tds s).locked_bias ≡ s.locked_bias
  unfolding bias_run SameLock
  run_in_month m [] s e h = refl
  run_in_month m (td ∷ tds) s e h =
      let same = ap (same_month (f.month td)) e ∙ same_month-some (f.month td) m h.0 in
      let kept = shock_turn-SameLock td s in
      ap (λ t. (bias_run fl f tds t).locked_bias) (bias_day-same td s same)
      ∙ run_in_month m tds (shock_turn fl f td s) (kept.0 ∙ e) h.1
      ∙ kept.1

  lock_turn-other :
      (td : ℕ) (s : BiasState fl)
      → f.modes.use_monthly_bias_lock ≡ true
      → same_month (f.month td) s.locked_month ≡ false
      → lock_turn fl f td s
        ≡ with_lock fl f.modes.use_shock_override_v32
            (f.month td)
            (lookup_next_step_bias fl f.next_step_df td)
            s
  unfolding lock_day
  lock_turn-other td s u h = rw (u, h) refl

  with_lock-lock :
      (shock : Bool) (m : ℕ) (b : Bias) (s : BiasState fl)
      → ((with_lock fl shock m b s).locked_month ≡ some m)
        × ((with_lock fl shock m b s).locked_bias ≡ known_lock shock b)
  with_lock-lock true m b s = (refl, refl)
  with_lock-lock false m b s = (refl, refl)

  -- Where the monthly lock is used, the bias locked on the first day of a month is that of the latest
  -- next-step row at or before that day, with NEUTRAL for an unknown one under the shock override, and
  -- no later day of the month changes it.
  pub locked_for_month :
      (td : ℕ) (tds : List ℕ) (s : BiasState fl)
      → f.modes.use_monthly_bias_lock ≡ true
      → same_month (f.month td) s.locked_month ≡ false
      → All (λ d. f.month d ≡ f.month td) tds
      → (bias_run fl f (td ∷ tds) s).locked_bias
        ≡ known_lock f.modes.use_shock_override_v32 (lookup_next_step_bias fl f.next_step_df td)
  unfolding bias_run bias_day SameLock
  locked_for_month td tds s u h k =
      let shock = f.modes.use_shock_override_v32 in
      let b = lookup_next_step_bias fl f.next_step_df td in
      let locked = with_lock-lock shock (f.month td) b s in
      let turned = lock_turn-other td s u h in
      let kept = shock_turn-SameLock td (lock_turn fl f td s) in
      run_in_month (f.month td) tds (shock_turn fl f td (lock_turn fl f td s))
        (kept.0 ∙ ap (λ t. t.locked_month) turned ∙ locked.0) k
      ∙ kept.1
      ∙ ap (λ t. t.locked_bias) turned
      ∙ locked.1
