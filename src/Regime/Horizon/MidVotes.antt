-- ===== src/Regime/Horizon/MidVotes.antt =====
-- The vote of the mid engine, and the agreement of its two deciders.
use pretrend_ai.Base.{◌≡◌, Option, [], ◌∷◌, if◌then◌else◌, arith, refl}
use pretrend_ai.Base.Float.{FloatOps}
use pretrend_ai.Regime.Labels.{MidRegime}
use pretrend_ai.Regime.Horizon.Mid.{
  Cell, null, nan, value, MacroRegime, VoteSource, same_regime, macro_signal, breadth_signal,
  majority_vote, majority_source, classify_price_signal, classify_mid_regime, compute_mid_decision,
}

-- A vote in which only the first signal is known goes to that signal.
majority_vote_alone :
    (p : MidRegime) → majority_vote (p ∷ MidRegime.unknown ∷ MidRegime.unknown ∷ []) ≡ p
unfolding majority_vote
majority_vote_alone MidRegime.risk_on = refl
majority_vote_alone MidRegime.neutral = refl
majority_vote_alone MidRegime.risk_off = refl
majority_vote_alone MidRegime.unknown = refl

-- The three-signal vote: UNKNOWN where no signal is known; else a known signal that two of the three
-- share; else the first known one.
reference_vote : MidRegime → MidRegime → MidRegime → MidRegime
reference_vote p MidRegime.unknown MidRegime.unknown = p
reference_vote MidRegime.unknown m b = if same_regime m MidRegime.unknown then b else m
reference_vote p m b = if same_regime m b then m else p

-- The counting vote on any three signals is the reference vote.
majority_vote-reference_vote :
    (p m b : MidRegime) → majority_vote (p ∷ m ∷ b ∷ []) ≡ reference_vote p m b
unfolding majority_vote reference_vote
majority_vote-reference_vote p m b = ground arith

-- the signal that a source label stands for
abbrev pub signal_of : MidRegime → MidRegime → MidRegime → VoteSource → MidRegime
signal_of p m b VoteSource.price = p
signal_of p m b VoteSource.macro = m
signal_of p m b VoteSource.breadth = b
signal_of p m b VoteSource.unknown = MidRegime.unknown

signal_of-majority_source :
    (p m b : MidRegime)
    → signal_of p m b (majority_source p m b (reference_vote p m b)) ≡ reference_vote p m b
unfolding majority_source reference_vote
signal_of-majority_source p m b = ground arith

module _ (fl : FloatOps) (ret vol : Option fl.F) (m : Cell MacroRegime) (b : Cell fl.F) where
  -- The two deciders of the mid engine agree on every input, the early return included.
  pub compute_mid_decision-classify :
      (compute_mid_decision fl ret vol m b).selected_signal ≡ classify_mid_regime fl ret vol m b
  unfolding compute_mid_decision classify_mid_regime
  compute_mid_decision-classify = agree m b
    where
      agree :
          (m : Cell MacroRegime) (b : Cell fl.F)
          → (compute_mid_decision fl ret vol m b).selected_signal
            ≡ classify_mid_regime fl ret vol m b
      agree null null = majority_vote_alone (classify_price_signal fl ret vol)
      agree null nan = refl
      agree null (value y) = refl
      agree nan b = refl
      agree (value x) b = refl

  -- The recorded source names a vote whose signal is the selected one, or "unknown" where the selected
  -- signal is UNKNOWN.
  majority_source_sound :
      let d = compute_mid_decision fl ret vol m b in
      signal_of d.price_signal d.macro_vote d.breadth_vote d.source ≡ d.selected_signal
  unfolding compute_mid_decision
  majority_source_sound =
      let p = classify_price_signal fl ret vol in
      rw (majority_vote-reference_vote p (macro_signal m) (breadth_signal fl b))
        (signal_of-majority_source p (macro_signal m) (breadth_signal fl b))
