-- ===== src/Regime/Horizon/Short.antt =====
-- src/pretrend/observability/regime/horizon/short_engine.py: the short signal, which the code decides
-- twice, by early returns and by flags.
use pretrend_ai.Base.{
  ℕ, ◌+◌, Bool, true, false, ◌&&◌, Option, none, some, List, [], ◌∷◌, length, leb, if◌then◌else◌,
}
use pretrend_ai.Base.Float.{FloatOps, fneg}
use pretrend_ai.Regime.Labels.{ShortSignal}

pub data Confirmation : Type 0 where
  vol_spike wide_intraday flight_to_safety smallcap_stress vix_extreme skew_extreme : Confirmation

-- the fields of `detail` that the evaluation computes
pub record Detail : Type 0 where
  pub primary_panic : Bool
  pub primary_relief : Bool
  pub secondary_panic_candidate : Bool
  pub secondary_relief_candidate : Bool
  pub secondary_confirm_count : ℕ
  pub secondary_confirmations : List Confirmation
  pub risk_on_confirm : Bool
  pub smallcap_stress_flag : Bool
  pub vix_extreme_flag : Bool
  pub skew_extreme_flag : Bool
  pub used_unknown_fallback : Bool

abbrev pub unknown_detail : Detail
unknown_detail = record {
  primary_panic = false;
  primary_relief = false;
  secondary_panic_candidate = false;
  secondary_relief_candidate = false;
  secondary_confirm_count = 0;
  secondary_confirmations = [];
  risk_on_confirm = false;
  smallcap_stress_flag = false;
  vix_extreme_flag = false;
  skew_extreme_flag = false;
  used_unknown_fallback = true;
}

-- `int(flag)`
abbrev pub int : Bool → ℕ
int true = 1
int false = 0

-- `[k for k, v in confirmation_flags.items() if v]`
abbrev pub flagged : List (Confirmation × Bool) → List Confirmation
flagged [] = []
flagged ((k, v) ∷ flags) = let rest = flagged flags in if v then k ∷ rest else rest

module _ (fl : FloatOps) where
  open fl use {F, lit, lt}

  -- A cell that is None or NaN is `none`; `skew_extreme` is `bool(skew_extreme)`.
  pub record Inputs : Type 0 where
    pub spy_ret_1d : Option F
    pub spy_vol_20d : Option F
    pub volume_zscore : Option F
    pub spy_intraday_range : Option F
    pub tlt_ret_1d : Option F
    pub iau_ret_1d : Option F
    pub iwm_spy_vol_spread : Option F
    pub vix_close : Option F
    pub skew_extreme : Bool

  -- `_is_valid(x) and x > c`, and `_is_valid(x) and x < c`
  abbrev pub above : Option F → F → Bool
  above none c = false
  above (some x) c = lt c x

  abbrev pub below : Option F → F → Bool
  below none c = false
  below (some x) c = lt x c

  abbrev pub flight : Inputs → Bool
  flight i = above i.tlt_ret_1d (lit 3 3) && above i.iau_ret_1d (lit 3 3)

  abbrev pub risk_on : Inputs → Bool
  risk_on i = below i.tlt_ret_1d (fneg fl (lit 2 3)) && below i.iau_ret_1d (fneg fl (lit 2 3))

  abbrev pub panic_move : F → F → Bool
  panic_move ret vol = lt ret (fneg fl (lit 1 2)) && lt (lit 18 3) vol

  abbrev pub weak_panic_move : F → F → Bool
  weak_panic_move ret vol = lt ret (fneg fl (lit 5 3)) && lt (lit 15 3) vol

  abbrev pub relief_move : F → F → Bool
  relief_move ret vol = lt (lit 5 3) ret && lt vol (lit 12 3)

  abbrev pub weak_relief_move : F → F → Bool
  weak_relief_move ret vol = lt (lit 3 3) ret && lt vol (lit 15 3)

  abbrev pub confirmation_flags : Inputs → List (Confirmation × Bool)
  confirmation_flags i =
      (vol_spike, above i.volume_zscore (lit 20 1))
      ∷ (wide_intraday, above i.spy_intraday_range (lit 20 3))
      ∷ (flight_to_safety, flight i)
      ∷ (smallcap_stress, above i.iwm_spy_vol_spread (lit 5 3))
      ∷ (vix_extreme, above i.vix_close (lit 350 1))
      ∷ (skew_extreme, i.skew_extreme)
      ∷ []

  -- the sum of the six flags in `_classify_short_signal`
  abbrev pub confirmation_sum : Inputs → ℕ
  confirmation_sum i =
      int (above i.volume_zscore (lit 20 1))
      + int (above i.spy_intraday_range (lit 20 3))
      + int (flight i)
      + int (above i.iwm_spy_vol_spread (lit 5 3))
      + int (above i.vix_close (lit 350 1))
      + int i.skew_extreme

  abbrev pub classify_valid : Inputs → F → F → ShortSignal
  classify_valid i ret vol =
      if panic_move ret vol
      then ShortSignal.panic
      else if weak_panic_move ret vol && leb 3 (confirmation_sum i)
      then ShortSignal.panic
      else if relief_move ret vol
      then ShortSignal.relief
      else if weak_relief_move ret vol && risk_on i
      then ShortSignal.relief
      else ShortSignal.stable

  abbrev pub on_valid {ℓ} : {A : Type ℓ} → Option F → Option F → (F → F → A) → A → A
  on_valid none vol f other = other
  on_valid (some r) none f other = other
  on_valid (some r) (some v) f other = f r v

  unfoldable pub classify_short_signal : Inputs → ShortSignal
  classify_short_signal i =
      on_valid i.spy_ret_1d i.spy_vol_20d (classify_valid i) ShortSignal.unknown

  abbrev pub evaluate_valid : Inputs → F → F → ShortSignal × Detail
  evaluate_valid i ret vol =
      let confirmations = flagged (confirmation_flags i) in
      let confirm_count = length confirmations in
      let signal =
        if panic_move ret vol
        then ShortSignal.panic
        else if weak_panic_move ret vol && leb 3 confirm_count
        then ShortSignal.panic
        else if relief_move ret vol
        then ShortSignal.relief
        else if weak_relief_move ret vol && risk_on i
        then ShortSignal.relief
        else ShortSignal.stable in
      (
        signal,
        record {
          primary_panic = panic_move ret vol;
          primary_relief = relief_move ret vol;
          secondary_panic_candidate = weak_panic_move ret vol;
          secondary_relief_candidate = weak_relief_move ret vol;
          secondary_confirm_count = confirm_count;
          secondary_confirmations = confirmations;
          risk_on_confirm = risk_on i;
          smallcap_stress_flag = above i.iwm_spy_vol_spread (lit 5 3);
          vix_extreme_flag = above i.vix_close (lit 350 1);
          skew_extreme_flag = i.skew_extreme;
          used_unknown_fallback = false;
        },
      )

  unfoldable pub evaluate_short_signal : Inputs → ShortSignal × Detail
  evaluate_short_signal i =
      on_valid i.spy_ret_1d i.spy_vol_20d (evaluate_valid i) (ShortSignal.unknown, unknown_detail)
