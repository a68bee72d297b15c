-- ===== src/Regime/Horizon/Mid.antt =====
-- src/pretrend/observability/regime/horizon/mid_engine.py: the mid regime by a vote of three signals.
use pretrend_ai.Base.{
  ℕ, Bool, true, false, ◌&&◌, not, Option, none, some, List, [], ◌∷◌, keep, ltb, ◌==◌,
  if◌then◌else◌,
}
use pretrend_ai.Base.Counter.{count, most_common}
use pretrend_ai.Base.Float.{FloatOps, fneg}
use pretrend_ai.Regime.Labels.{MidRegime}

-- A cell of a frame, where the code tells None from NaN.
pub data Cell {ℓ} (A : Type ℓ) : Type ℓ where
  null nan : Cell A
  value : A → Cell A

-- The values of `macro_policy.regime` after `lower()`; `other` is any text that the map lacks.
pub data MacroRegime : Type 0 where
  easing tightening neutral other : MacroRegime

abbrev pub same_regime : MidRegime → MidRegime → Bool
same_regime MidRegime.risk_on MidRegime.risk_on = true
same_regime MidRegime.neutral MidRegime.neutral = true
same_regime MidRegime.risk_off MidRegime.risk_off = true
same_regime MidRegime.unknown MidRegime.unknown = true
same_regime _ _ = false

-- `_MACRO_TO_SIGNAL.get(…, "UNKNOWN")`
abbrev pub macro_to_signal : MacroRegime → MidRegime
macro_to_signal MacroRegime.easing = MidRegime.risk_on
macro_to_signal MacroRegime.tightening = MidRegime.risk_off
macro_to_signal MacroRegime.neutral = MidRegime.neutral
macro_to_signal MacroRegime.other = MidRegime.unknown

abbrev pub is_known : MidRegime → Bool
is_known s = not (same_regime s MidRegime.unknown)

-- the first signal of the list among those with the top count; the loop always finds one, and what
-- the code returns behind it stands last
unfoldable pub first_top : List MidRegime → ℕ → List MidRegime → MidRegime → MidRegime
first_top valid top [] last = last
first_top valid top (s ∷ signals) last =
    let rest = first_top valid top signals last in
    let c = count same_regime s valid in if ltb 0 c && c == top then s else rest

unfoldable pub majority_vote : List MidRegime → MidRegime
unfolding first_top most_common count
majority_vote signals =
    let valid = keep is_known signals in
    elim (most_common same_regime valid) [
      | none ↦ MidRegime.unknown
      | some m ↦ first_top valid (count same_regime m valid) signals m
    ]

pub data VoteSource : Type 0 where
  price macro breadth unknown : VoteSource

-- `_majority_source` on the three signals in the order of its labels
unfoldable pub majority_source : MidRegime → MidRegime → MidRegime → MidRegime → VoteSource
majority_source p m b selected =
    if same_regime selected MidRegime.unknown
    then VoteSource.unknown
    else if same_regime p selected
    then VoteSource.price
    else if same_regime m selected
    then VoteSource.macro
    else if same_regime b selected
    then VoteSource.breadth
    else VoteSource.unknown

abbrev pub macro_signal : Cell MacroRegime → MidRegime
macro_signal null = MidRegime.unknown
macro_signal nan = MidRegime.unknown
macro_signal (value m) = macro_to_signal m

module _ (fl : FloatOps) where
  open fl use {F, lit, lt}

  unfoldable pub classify_price_signal : Option F → Option F → MidRegime
  classify_price_signal none vol = MidRegime.unknown
  classify_price_signal (some r) none = MidRegime.unknown
  classify_price_signal (some r) (some v) =
      if lt (lit 0 0) r && lt v (lit 15 3)
      then MidRegime.risk_on
      else if lt r (lit 0 0) && lt (lit 15 3) v
      then MidRegime.risk_off
      else MidRegime.neutral

  abbrev pub breadth_signal : Cell F → MidRegime
  breadth_signal null = MidRegime.unknown
  breadth_signal nan = MidRegime.unknown
  breadth_signal (value b) =
      if lt (lit 5 3) b
      then MidRegime.risk_on
      else if lt b (fneg fl (lit 5 3))
      then MidRegime.risk_off
      else MidRegime.neutral

  abbrev pub is_null {ℓ} : {A : Type ℓ} → Cell A → Bool
  is_null null = true
  is_null nan = false
  is_null (value a) = false

  -- `_classify_mid_regime`, with its early return where both optional axes are None
  unfoldable pub classify_mid_regime : Option F → Option F → Cell MacroRegime → Cell F → MidRegime
  unfolding classify_price_signal majority_vote
  classify_mid_regime ret vol m b =
      let p = classify_price_signal ret vol in
      if is_null m && is_null b
      then p
      else majority_vote (p ∷ macro_signal m ∷ breadth_signal b ∷ [])

  pub record MidDecision : Type 0 where
    pub selected_signal : MidRegime
    pub price_signal : MidRegime
    pub macro_vote : MidRegime
    pub breadth_vote : MidRegime
    pub source : VoteSource

  unfoldable pub compute_mid_decision :
      Option F → Option F → Cell MacroRegime → Cell F → MidDecision
  unfolding classify_price_signal majority_vote majority_source
  compute_mid_decision ret vol m b =
      let p = classify_price_signal ret vol in
      let selected = majority_vote (p ∷ macro_signal m ∷ breadth_signal b ∷ []) in
      record {
        selected_signal = selected;
        price_signal = p;
        macro_vote = macro_signal m;
        breadth_vote = breadth_signal b;
        source = majority_source p (macro_signal m) (breadth_signal b) selected;
      }
