-- ===== src/Strategy/Range.antt =====
-- The range of the invested ratio in the default mode.
use mathlib.Core.Path.{subst, sym, refl}
use pretrend_ai.Base.{
  Bool, true, false, ◌&&◌, not, ◌≡◌, List, [], ◌∷◌, All, if◌then◌else◌, arith, Bool-cases, inl, inr,
}
use pretrend_ai.Base.Float.{FloatOps, OrderLaws, lt_irrefl, decimal, decimal-OrderLaws, fmin, fmax}
use pretrend_ai.Base.Int.{◌+ℤ◌, ◌-ℤ◌}
use pretrend_ai.Strategy.Allocation.{
  v0, PolicyRow, Result, at_least_zero, quantize, compute_allocation, allocate, build_allocation,
}

-- 0 ≤ x ≤ 1, in the comparisons of the floats.
abbrev pub InUnit : (fl : FloatOps) → fl.F → Type 0
InUnit fl x = (fl.lt x (fl.lit 0 0) ≡ false) × (fl.lt (fl.lit 10 1) x ≡ false)

-- What IEEE arithmetic gives for finite floats: the order laws, `<=` as "not greater", sums and
-- differences on the right side of zero and of the first operand, and `round(x, 4)`, which is monotone
-- and leaves 0.0 and 1.0 alone.
pub record RatioLaws (fl : FloatOps) : Type 0 where
  pub order : OrderLaws fl
  pub le_def : (a b : fl.F) → fl.le a b ≡ not (fl.lt b a)
  pub zero_lit : fl.lit 0 1 ≡ fl.lit 0 0
  pub zero-lt-one : fl.lt (fl.lit 0 0) (fl.lit 10 1) ≡ true
  pub add_nonneg :
      (a b : fl.F)
      → fl.lt a (fl.lit 0 0) ≡ false
      → fl.lt b (fl.lit 0 0) ≡ false
      → fl.lt (fl.add a b) (fl.lit 0 0) ≡ false
  pub sub-le : (a b : fl.F) → fl.lt b (fl.lit 0 0) ≡ false → fl.lt a (fl.sub a b) ≡ false
  pub round_unit : (x : fl.F) → InUnit fl x → InUnit fl (fl.round x 4)

module _ (fl : FloatOps) (laws : RatioLaws fl) where
  open fl use {F, lit, lt, le, add, sub, round}

  at_least_zero_nonneg : (d : F) → lt (at_least_zero fl d) (lit 0 0) ≡ false
  at_least_zero_nonneg d = elim (Bool-cases (le d (lit 0 0))) [
    | inl h ↦ rw h (rw laws.zero_lit (lt_irrefl fl laws.order (lit 0 0)))
    | inr h ↦ rw h (ground (arith, laws.le_def d (lit 0 0), laws.order.lt_asymm (lit 0 0) d))
  ]

  abbrev raise_to : F → PolicyRow fl → F
  raise_to current row =
      let up = quantize fl (fmin fl (sub row.lower current) row.adjustment_limit) row.step_size in
      round (fmin fl (add current (at_least_zero fl up)) (lit 10 1)) 4

  abbrev lower_to : F → PolicyRow fl → F
  lower_to current row =
      let down = quantize fl (fmin fl (sub current row.upper) row.adjustment_limit) row.step_size in
      round (fmax fl (sub current (at_least_zero fl down)) (lit 0 1)) 4

  one-ge-zero : lt (lit 10 1) (lit 0 0) ≡ false
  one-ge-zero = laws.order.lt_asymm (lit 0 0) (lit 10 1) laws.zero-lt-one

  raised :
      (current d : F)
      → InUnit fl current
      → lt d (lit 0 0) ≡ false
      → InUnit fl (fmin fl (add current d) (lit 10 1))
  raised current d h h' = elim (Bool-cases (lt (lit 10 1) (add current d))) [
    | inl e ↦ rw e (one-ge-zero, lt_irrefl fl laws.order (lit 10 1))
    | inr e ↦ rw e (laws.add_nonneg current d h.0 h', e)
  ]

  lowered :
      (current d : F)
      → InUnit fl current
      → lt d (lit 0 0) ≡ false
      → InUnit fl (fmax fl (sub current d) (lit 0 0))
  lowered current d h h' = elim (Bool-cases (lt (sub current d) (lit 0 0))) [
    | inl e ↦ rw e (lt_irrefl fl laws.order (lit 0 0), one-ge-zero)
    | inr e ↦ rw e (
      e,
      laws.order.lt_negtrans (lit 10 1) current (sub current d) h.1 (laws.sub-le current d h'),
    )
  ]

  choose : (c : Bool) (x y : F) → InUnit fl x → InUnit fl y → InUnit fl (if c then x else y)
  choose true x y h h' = h
  choose false x y h h' = h'

  compute_allocation-ratio :
      (current : F) (row : PolicyRow fl)
      → (compute_allocation fl current row).next_invested_ratio ≡ (
          if le row.lower current && le current row.upper
          then current
          else if lt current row.lower
          then if row.risk_gate && row.run_universe then raise_to current row else current
          else lower_to current row)
  unfolding compute_allocation
  compute_allocation-ratio current row = ground arith

  compute_allocation-InUnit :
      (current : F) (row : PolicyRow fl)
      → InUnit fl current
      → InUnit fl (compute_allocation fl current row).next_invested_ratio
  compute_allocation-InUnit current row h =
      let up =
        at_least_zero fl
          (quantize fl (fmin fl (sub row.lower current) row.adjustment_limit) row.step_size) in
      let down =
        at_least_zero fl
          (quantize fl (fmin fl (sub current row.upper) row.adjustment_limit) row.step_size) in
      let higher = laws.round_unit _ (raised current up h (at_least_zero_nonneg _)) in
      let less = laws.round_unit _ (lowered current down h (at_least_zero_nonneg _)) in
      rw (compute_allocation-ratio current row) (
        choose (le row.lower current && le current row.upper) _ _ h (
          choose (lt current row.lower) _ _
            (choose (row.risk_gate && row.run_universe) _ _ higher h)
            (subst (λ z. InUnit fl (round (fmax fl (sub current down) z) 4)) (sym laws.zero_lit)
              less)))

  -- Under the ratio laws, in the default mode every ratio of the allocation table lies in [0, 1], whatever the policy rows
  -- hold, if the starting ratio does.
  pub build_allocation_range :
      (current : F) (rows : List (PolicyRow fl))
      → InUnit fl current
      → All
          (λ (r : Result fl). InUnit fl r.next_invested_ratio)
          (build_allocation fl v0 current rows)
  unfolding build_allocation allocate
  build_allocation_range current [] h = tt
  build_allocation_range current (row ∷ rows) h =
      let now = compute_allocation-InUnit current row h in
      (now, build_allocation_range (compute_allocation fl current row).next_invested_ratio rows now)

-- The decimals obey the laws.
pub decimal-RatioLaws : RatioLaws decimal
unfolding ◌+ℤ◌ ◌-ℤ◌
decimal-RatioLaws = record {
  order = decimal-OrderLaws;
  le_def = λ a b. ground arith;
  zero_lit = refl;
  zero-lt-one = refl;
  add_nonneg = λ a b h h'. ground arith;
  sub-le = λ a b h. ground arith;
  round_unit = λ x h. (ground arith, ground arith);
}
