-- ===== src/Strategy/Gates.antt =====
-- The gates of the allocation engine: when an INCREASE is refused.
use pretrend_ai.Base.{false, ◌&&◌, not, ◌≡◌, ◌≢◌, arith}
use pretrend_ai.Base.Float.{FloatOps}
use pretrend_ai.Strategy.Allocation.{
  increase, Mode, v0, v1, v2, unknown_mode, PolicyRow, apply_delta, compute_allocation,
  compute_allocation_v1, compute_allocation_v2, allocate,
}

module _ (fl : FloatOps) where
  open fl use {F, lt, le}

  apply_delta-gate :
      (current goal adj step : F) → (apply_delta fl current goal adj step false).action ≢ increase
  unfolding apply_delta
  apply_delta-gate current goal adj step e = ground arith

  pub compute_allocation-gate :
      (current : F) (row : PolicyRow fl)
      → (row.risk_gate && row.run_universe) ≡ false
      → (compute_allocation fl current row).action ≢ increase
  unfolding compute_allocation
  compute_allocation-gate current row h e = ground arith

  -- In every mode, a row whose `run_universe` is false never raises the exposure.
  no_increase_without_universe :
      (mode : Mode) (current : F) (row : PolicyRow fl)
      → row.run_universe ≡ false
      → (allocate fl mode current row).action ≢ increase
  unfolding allocate compute_allocation_v1 compute_allocation_v2
  no_increase_without_universe v0 current row h = compute_allocation-gate current row (ground arith)
  no_increase_without_universe unknown_mode current row h =
      compute_allocation-gate current row (ground arith)
  no_increase_without_universe v1 current row h = rw h (apply_delta-gate current _ _ _)
  no_increase_without_universe v2 current row h = rw h (apply_delta-gate current _ _ _)

  -- In the default mode a closed risk gate refuses an INCREASE too, and the flag says exactly when:
  -- the ratio is below the range and the gate is closed.
  risk_gate_exact :
      (current : F) (row : PolicyRow fl)
      → (compute_allocation fl current row).blocked ≡ (
          not (le row.lower current && le current row.upper)
          && (lt current row.lower && not row.risk_gate))
  unfolding compute_allocation
  risk_gate_exact current row = ground arith
