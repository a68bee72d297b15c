-- ===== src/Paper/Simulation/Invariant.antt =====
-- What every turn of the simulation keeps holds of the account at its end.
use pretrend_ai.Base.{Option, none, some, List, [], ◌∷◌}
use pretrend_ai.Base.Float.{FloatOps}
use pretrend_ai.Backtest.Rebalancer.{Names}
use pretrend_ai.Paper.Simulation.{Settings, Exposure, Account, Prices, as_prices}
use pretrend_ai.Paper.Simulation.Run.{deposit, turn, step, run, and_then}

-- The property holds of the result, if there is one.
abbrev pub IfSome {ℓ κ} : {A : Type ℓ} → (A → Type κ) → Option A → Type κ
IfSome P none = Unit
IfSome P (some a) = P a

module _ {fl : FloatOps} {names : Names} (settings : Settings fl names)
    (P : Account fl names → Type 0)
    (kept : (row : Exposure fl names) (prices : Prices fl names) (a : Account fl names)
      → P a
      → IfSome P
          (turn fl names settings row prices (deposit fl names settings row.trade_date a))) where
  step-keeps :
      (row : Exposure fl names) (a : Account fl names)
      → P a
      → IfSome P (step fl names settings row a)
  unfolding step
  step-keeps row a h =
      elim (as_prices fl names settings.price_rows row.trade_date)
        as (λ prices. IfSome P (elim prices [
          | [] ↦ some a
          | p ∷ ps ↦
              turn fl names settings row (p ∷ ps) (deposit fl names settings row.trade_date a)
        ])) [ [] ↦ h | p ∷ ps ↦ kept row (p ∷ ps) a h ]

  and_then-keeps :
      (o : Option (Account fl names)) (f : Account fl names → Option (Account fl names))
      → IfSome P o
      → ((b : Account fl names) → P b → IfSome P (f b))
      → IfSome P (and_then fl names o f)
  and_then-keeps none f h k = tt
  and_then-keeps (some b) f h k = k b h

  pub run-keeps :
      (rows : List (Exposure fl names)) (a : Account fl names)
      → P a
      → IfSome P (run fl names settings rows a)
  unfolding run
  run-keeps [] a h = h
  run-keeps (row ∷ rows) a h =
      and_then-keeps (step fl names settings row a) (run fl names settings rows)
        (step-keeps row a h) (run-keeps rows)
