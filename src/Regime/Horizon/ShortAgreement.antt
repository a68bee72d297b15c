-- ===== src/Regime/Horizon/ShortAgreement.antt =====
-- The two deciders of the short signal agree, and what a PANIC takes.
use pretrend_ai.Base.{
  ◌+◌, ◌≡◌, ◌&&◌, ◌||◌, leb, Bool, true, false, Option, none, some, [], ◌∷◌, length, if◌then◌else◌,
  arith, refl,
}
use pretrend_ai.Base.Float.{FloatOps}
use pretrend_ai.Regime.Labels.{ShortSignal}
use pretrend_ai.Regime.Horizon.Short.{
  int, flagged, vol_spike, wide_intraday, flight_to_safety, smallcap_stress, vix_extreme,
  skew_extreme, flight, evaluate_valid, classify_valid, unknown_detail, Inputs,
  classify_short_signal, evaluate_short_signal, confirmation_sum, confirmation_flags, panic_move,
  weak_panic_move, relief_move, weak_relief_move, risk_on, above, on_valid,
}

length-flagged :
    (a b c d e f : Bool)
    → length (
        flagged (
          (vol_spike, a)
          ∷ (wide_intraday, b)
          ∷ (flight_to_safety, c)
          ∷ (smallcap_stress, d)
          ∷ (vix_extreme, e)
          ∷ (skew_extreme, f)
          ∷ []))
      ≡ int a + int b + int c + int d + int e + int f
length-flagged a b c d e f = ground arith

fst-on_valid :
    (fl : FloatOps) (o p : Option fl.F) {B C : Type 0} (f : fl.F → fl.F → B × C)
    (g : fl.F → fl.F → B) (b : B) (c : C)
    → ((r v : fl.F) → (f r v).0 ≡ g r v)
    → (on_valid fl o p f (b, c)).0 ≡ on_valid fl o p g b
fst-on_valid fl none p f g b c h = refl
fst-on_valid fl (some r) none f g b c h = refl
fst-on_valid fl (some r) (some v) f g b c h = h r v

abbrev pub is_panic : ShortSignal → Bool
is_panic ShortSignal.panic = true
is_panic _ = false

abbrev pub is_unknown : ShortSignal → Bool
is_unknown ShortSignal.unknown = true
is_unknown _ = false

abbrev pub is_none {ℓ} : {A : Type ℓ} → Option A → Bool
is_none none = true
is_none (some a) = false

panic_ladder :
    (p w r s c three : Bool)
    → is_panic (
        if p
        then ShortSignal.panic
        else if w && three
        then ShortSignal.panic
        else if r
        then ShortSignal.relief
        else if s && c
        then ShortSignal.relief
        else ShortSignal.stable)
      ≡ (p || (w && three))
panic_ladder p w r s c three = ground arith

unknown_ladder :
    (p w r s : Bool)
    → is_unknown (
        if p
        then ShortSignal.panic
        else if w
        then ShortSignal.panic
        else if r
        then ShortSignal.relief
        else if s
        then ShortSignal.relief
        else ShortSignal.stable)
      ≡ false
unknown_ladder p w r s = ground arith

unknown-on_valid :
    (fl : FloatOps) (i : Inputs fl) (o p : Option fl.F)
    → is_unknown (on_valid fl o p (classify_valid fl i) ShortSignal.unknown)
      ≡ (is_none o || is_none p)
unknown-on_valid fl i none p = refl
unknown-on_valid fl i (some r) none = refl
unknown-on_valid fl i (some r) (some v) =
    unknown_ladder (panic_move fl r v) (weak_panic_move fl r v && leb 3 (confirmation_sum fl i))
      (relief_move fl r v) (weak_relief_move fl r v && risk_on fl i)

module _ (fl : FloatOps) (i : Inputs fl) where
  -- The list of confirmations is as long as the sum of the flags.
  confirm_count-sum : length (flagged (confirmation_flags fl i)) ≡ confirmation_sum fl i
  confirm_count-sum =
      length-flagged (above fl i.volume_zscore (fl.lit 20 1))
        (above fl i.spy_intraday_range (fl.lit 20 3)) (flight fl i)
        (above fl i.iwm_spy_vol_spread (fl.lit 5 3)) (above fl i.vix_close (fl.lit 350 1))
        i.skew_extreme

  evaluate_valid-classify : (r v : fl.F) → (evaluate_valid fl i r v).0 ≡ classify_valid fl i r v
  evaluate_valid-classify r v = rw confirm_count-sum

  -- For every input the decider by flags returns the label of the decider by early returns.
  pub evaluate-classify : (evaluate_short_signal fl i).0 ≡ classify_short_signal fl i
  unfolding evaluate_short_signal classify_short_signal
  evaluate-classify =
      fst-on_valid fl i.spy_ret_1d i.spy_vol_20d (evaluate_valid fl i) (classify_valid fl i)
        ShortSignal.unknown unknown_detail evaluate_valid-classify

  -- The signal is UNKNOWN exactly where the return or the volatility is missing.
  short_unknown_exact :
      is_unknown (classify_short_signal fl i) ≡ (is_none i.spy_ret_1d || is_none i.spy_vol_20d)
  unfolding classify_short_signal
  short_unknown_exact = unknown-on_valid fl i i.spy_ret_1d i.spy_vol_20d

  -- With both cells present, the signal is PANIC exactly on the primary move, or on the weak move with
  -- three or more confirmations in the list that the detail reports.
  panic_exact :
      (r v : fl.F)
      → i.spy_ret_1d ≡ some r
      → i.spy_vol_20d ≡ some v
      → is_panic (classify_short_signal fl i) ≡ (
          panic_move fl r v
          || (weak_panic_move fl r v
              && leb 3 (length (evaluate_short_signal fl i).1.secondary_confirmations)))
  unfolding classify_short_signal evaluate_short_signal
  panic_exact r v p q =
      rw (p, q, confirm_count-sum)
        (panic_ladder (panic_move fl r v) (weak_panic_move fl r v) (relief_move fl r v)
          (weak_relief_move fl r v) (risk_on fl i) (leb 3 (confirmation_sum fl i)))
