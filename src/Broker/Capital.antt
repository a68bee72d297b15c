-- ===== src/Broker/Capital.antt =====
-- The loop over the months of `_estimate_total_invested_capital_usd` ends.
use pretrend_ai.Base.{
  ℕ, zero, suc, ◌+◌, ◌*◌, ◌-◌, ◌≤◌, ◌<◌, true, false, ◌≡◌, refl, some, Bool-cases, inl, inr, arith,
}
use pretrend_ai.Base.Float.{FloatOps}
use pretrend_ai.Broker.TradingDay.{Month, next_month, month_le, add_months}

-- The months from the year 0.
abbrev pub index : Month → ℕ
index m = m.year * 12 + m.month

abbrev pub IsMonth : Month → Type 0
IsMonth m = (1 ≤ m.month) × (m.month ≤ 12)

index-next : (m : Month) → IsMonth m → index (next_month m) ≡ index m + 1
index-next m h = ground arith

next-IsMonth : (m : Month) → IsMonth m → IsMonth (next_month m)
next-IsMonth m h = ground arith

month_le-index : (a b : Month) → IsMonth a → IsMonth b → month_le a b ≡ true → index a ≤ index b
month_le-index a b h k e = ground arith

month_gt_index : (a b : Month) → IsMonth a → IsMonth b → month_le a b ≡ false → index b < index a
month_gt_index a b h k e = ground arith

module _ (fl : FloatOps) where
  open fl use {F, add}

  -- n additions, one after the other
  abbrev pub add_times : ℕ → F → F → F
  add_times zero monthly total = total
  add_times (suc n) monthly total = add_times n monthly (add total monthly)

  -- With fuel for each month from the first to the last and one more, the loop ends with one addition for
  -- each of these months, for none when the first comes after the last.
  pub months_added :
      (fuel : ℕ) (first last : Month) (monthly total : F)
      → IsMonth first
      → IsMonth last
      → index last + 1 - index first < fuel
      → add_months fl fuel first last monthly total
        ≡ some (add_times (index last + 1 - index first) monthly total)
  unfolding add_months
  months_added zero first last monthly total h k e = absurd (omega arith)
  months_added (suc fuel) first last monthly total h k e = elim (Bool-cases (month_le first last)) [
    | inl l ↦
        let step = index-next first h in
        let before = month_le-index first last h k l in
        let more : index last + 1 - index first ≡ suc (index last + 1 - index (next_month first)) =
          omega arith in
        rw (l, more)
          (months_added fuel (next_month first) last monthly (add total monthly)
            (next-IsMonth first h) k (omega arith))
    | inr g ↦
        let behind = month_gt_index first last h k g in
        let none_left : index last + 1 - index first ≡ 0 = omega arith in rw (g, none_left) refl
  ]
