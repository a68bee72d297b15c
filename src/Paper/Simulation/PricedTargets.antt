-- ===== src/Paper/Simulation/PricedTargets.antt =====
-- The target weights of a day have prices.
use pretrend_ai.Base.{
  Bool, true, false, ◌≡◌, refl, ◌&&◌, Option, none, some, [], ◌∷◌, All, All-mono, keep, if_cases,
  keep_sound,
}
use pretrend_ai.Base.Float.{FloatOps}
use pretrend_ai.Base.Dict.{get}
use pretrend_ai.Backtest.Rebalancer.{Names, Config, PolicyRow, Weights}
use pretrend_ai.Paper.Priced.{is_priced}
use pretrend_ai.Paper.Simulation.{
  Settings, Exposure, Prices, is_above_zero, is_valid, sum_of, divided, normalize_weights, or_else,
}
use pretrend_ai.Paper.Simulation.Day.{targets_of_day}

module _ (fl : FloatOps) (names : Names) (settings : Settings fl names) where
  open fl use {F, lit, lt, le}
  open names use {S, same_symbol, schd}

  unfoldable pub AllPriced : Prices fl names → Weights fl names → Type 0
  AllPriced prices ws = All (λ t. is_priced fl S same_symbol prices t ≡ true) ws

  valid-priced :
      (price : Option F) (positive : Bool)
      → (is_above_zero fl names price && positive) ≡ true
      → elim price [ none ↦ false | some _ ↦ true ] ≡ true
  valid-priced none positive h = h
  valid-priced (some p) positive h = refl

  divided-priced :
      (prices : Prices fl names) (s : F) (ws : Weights fl names)
      → AllPriced prices ws
      → AllPriced prices (divided fl names s ws)
  unfolding AllPriced
  divided-priced prices s [] h = tt
  divided-priced prices s ((sym, w) ∷ ws) h = (h.0, divided-priced prices s ws h.1)

  normalized-priced :
      (ws : Weights fl names) (prices : Prices fl names)
      → AllPriced prices (normalize_weights fl names ws prices)
  unfolding normalize_weights AllPriced
  normalized-priced ws prices =
      let valid = keep (is_valid fl names prices) ws in
      let s = sum_of fl names (lit 0 0) valid in
      if_cases (All (λ t. is_priced fl S same_symbol prices t ≡ true)) (le s (lit 0 0)) []
        (divided fl names s valid) (λ e. tt)
        (λ e. divided-priced prices s valid (
          All-mono _ _ (λ (sym, w) h. valid-priced (get same_symbol sym prices) (lt (lit 0 1) w) h)
            valid (keep_sound (is_valid fl names prices) ws)))

  or_else-priced :
      (prices : Prices fl names) (ws vs : Weights fl names)
      → AllPriced prices ws
      → AllPriced prices vs
      → AllPriced prices (or_else fl names ws vs)
  or_else-priced prices [] vs h k = k
  or_else-priced prices (w ∷ ws) vs h k = h

  pub targets-priced :
      (row : Exposure fl names) (policy : Option PolicyRow) (config : Config fl names)
      (prices : Prices fl names)
      → AllPriced prices (targets_of_day fl names settings row policy config prices).1
  unfolding targets_of_day
  targets-priced row policy config prices =
      or_else-priced prices _ _ (normalized-priced _ prices) (normalized-priced _ prices)
