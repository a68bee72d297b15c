-- ===== src/Backtest/DecimalSigns.antt =====
-- The decimals obey the sign laws that the solvency of a portfolio rests on.
use pretrend_ai.Base.{ℕ, zero, suc, ◌+◌, ◌*◌, ◌/◌, ◌^◌, ◌≡◌, refl, true, false, arith}
use pretrend_ai.Base.Float.{decimal, decimal-OrderLaws}
use pretrend_ai.Base.Int.{ℤ, pos, negsuc, pos_part, neg_part, sub_ℕ, ltb_ℤ, ◌+ℤ◌, ◌-ℤ◌}
use pretrend_ai.Backtest.Solvency.{SignLaws}

abbrev scale : ℕ
scale = 10 ^ 12

mul_sign :
    (a b : ℤ)
    → ltb_ℤ a (pos 0) ≡ false
    → ltb_ℤ b (pos 0) ≡ false
    → ltb_ℤ
        (sub_ℕ
          ((pos_part a * pos_part b + neg_part a * neg_part b) / scale)
          ((pos_part a * neg_part b + neg_part a * pos_part b) / scale))
        (pos 0)
      ≡ false
mul_sign (pos m) (pos n) h k = ground arith
mul_sign (pos m) (negsuc n) h k = ground arith
mul_sign (negsuc m) b h k = ground arith

div_sign :
    (a b : ℤ)
    → ltb_ℤ a (pos 0) ≡ false
    → ltb_ℤ (pos 0) b ≡ true
    → ltb_ℤ
        (sub_ℕ
          (pos_part a * scale / pos_part b + neg_part a * scale / neg_part b)
          (pos_part a * scale / neg_part b + neg_part a * scale / pos_part b))
        (pos 0)
      ≡ false
div_sign (pos m) (pos zero) h k = ground arith
div_sign (pos m) (pos (suc n)) h k = ground arith
div_sign (pos m) (negsuc n) h k = ground arith
div_sign (negsuc m) b h k = ground arith

pub decimal-SignLaws : SignLaws decimal
unfolding ◌+ℤ◌ ◌-ℤ◌
decimal-SignLaws = record {
  order = decimal-OrderLaws;
  le_def = λ a b. ground arith;
  zero_lit = refl;
  dust_lit = refl;
  add_nonneg = λ a b h k. ground arith;
  mul_nonneg = mul_sign;
  div_nonneg = div_sign;
  sub_nonneg = λ a b h. ground arith;
}
