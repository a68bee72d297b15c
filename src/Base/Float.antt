-- ===== src/Base/Float.antt =====
-- Python's `float`: a parameter of the model, since the language implements it. The interface holds
-- the operations that the code calls; the laws that a property relies on are named where it is
-- stated. A float that is `None` or NaN in a frame is `none` of an `Option`.
use Prim.Native.Nat.{ℕ, ◌+◌, ◌-◌, ◌*◌, ◌/◌, ◌^◌}
use mathlib.Core.Bool.{Bool, true, false, not, ◌&&◌}
use mathlib.Core.Path.{◌≡◌}
use native.Mathlib.Omega.{arith}
use pretrend_ai.Base.Tests.{if◌then◌else◌}
use pretrend_ai.Base.Int.{
  ℤ, pos, pos_part, neg_part, sub_ℕ, ltb_ℤ, leb_ℤ, ◌+ℤ◌, ◌-ℤ◌, ltb_ℤ_asymm, ltb_ℤ_negtrans,
  leb_ℤ_antisymm,
}

pub record FloatOps : Type 1 where
  pub F : Type 0
  -- `lit m d` is the literal with the digits of m, d of them behind the point: `lit 95 2` is 0.95.
  pub lit : ℕ → ℕ → F
  pub of_int : ℤ → F
  pub add : F → F → F
  pub sub : F → F → F
  pub mul : F → F → F
  pub div : F → F → F
  pub lt : F → F → Bool
  pub le : F → F → Bool
  pub eq : F → F → Bool
  -- `round(x, d)` and `int(x)`
  pub round : F → ℕ → F
  pub trunc : F → ℤ
  -- `math.floor(x)`
  pub floor : F → ℤ

-- `min(a, b)` and `max(a, b)` return the first argument unless the second one is smaller or greater.
module _ (fl : FloatOps) where
  open fl use {F, lt, sub, lit}

  abbrev pub fmin : F → F → F
  fmin a b = if lt b a then b else a

  abbrev pub fmax : F → F → F
  fmax a b = if lt a b then b else a

  -- `-x` and `abs(x)`
  abbrev pub fneg : F → F
  fneg a = sub (lit 0 0) a

  abbrev pub fabs : F → F
  fabs a = if lt a (lit 0 0) then fneg a else a

-- Decimals with twelve places: a concrete arithmetic, on which the model runs.
abbrev scale : ℕ
scale = 10 ^ 12

-- round half away from zero, to d of the twelve places
abbrev round_ℕ : ℕ → ℕ → ℕ
round_ℕ a d = let unit = 10 ^ (12 - d) in (a + unit / 2) / unit * unit

abbrev pub decimal : FloatOps
unfolding ◌+ℤ◌ ◌-ℤ◌
decimal = record {
  F = ℤ;
  lit = λ m d. pos (m * 10 ^ (12 - d));
  of_int = λ a. sub_ℕ (pos_part a * scale) (neg_part a * scale);
  add = λ a b. a +ℤ b;
  sub = λ a b. a -ℤ b;
  mul = λ a b.
      sub_ℕ ((pos_part a * pos_part b + neg_part a * neg_part b) / scale)
        ((pos_part a * neg_part b + neg_part a * pos_part b) / scale);
  div = λ a b.
      sub_ℕ (pos_part a * scale / pos_part b + neg_part a * scale / neg_part b)
        (pos_part a * scale / neg_part b + neg_part a * scale / pos_part b);
  lt = ltb_ℤ;
  le = leb_ℤ;
  eq = λ a b. leb_ℤ a b && leb_ℤ b a;
  round = λ a d. sub_ℕ (round_ℕ (pos_part a) d) (round_ℕ (neg_part a) d);
  trunc = λ a. sub_ℕ (pos_part a / scale) (neg_part a / scale);
  floor = λ a. sub_ℕ (pos_part a / scale) ((neg_part a + (scale - 1)) / scale);
}

-- What IEEE comparison gives on floats that are not NaN: `<` is asymmetric, "not less" is
-- transitive, and `==` is "neither is less".
pub record OrderLaws (fl : FloatOps) : Type 0 where
  pub lt_asymm : (a b : fl.F) → fl.lt a b ≡ true → fl.lt b a ≡ false
  pub lt_negtrans : (a b c : fl.F) → fl.lt a b ≡ false → fl.lt b c ≡ false → fl.lt a c ≡ false
  pub eq_def : (a b : fl.F) → fl.eq a b ≡ (not (fl.lt a b) && not (fl.lt b a))

pub lt_irrefl : (fl : FloatOps) → OrderLaws fl → (a : fl.F) → fl.lt a a ≡ false
lt_irrefl fl laws a = ground (arith, laws.lt_asymm a a)

-- The decimals obey the laws.
pub decimal-OrderLaws : OrderLaws decimal
unfolding ◌+ℤ◌ ◌-ℤ◌
decimal-OrderLaws = record {
  lt_asymm = ltb_ℤ_asymm;
  lt_negtrans = ltb_ℤ_negtrans;
  eq_def = leb_ℤ_antisymm;
}
