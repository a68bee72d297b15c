-- ===== src/Gold/Select.antt =====
-- The selection and the features of `build_gold_macro_features` in
-- src/pretrend/pipeline/features/gold_macro_features.py. A date is its ordinal; an indicator is the
-- rank of its name. What pandas and dateutil compute is a parameter.
use pretrend_ai.Base.{
  ℕ, zero, suc, ◌-◌, Bool, ◌&&◌, ◌||◌, ◌==◌, ltb, Option, none, some, List, [], ◌∷◌, ◌++◌, map,
  length, take, keep, any, if◌then◌else◌,
}
use pretrend_ai.Base.Float.{FloatOps}
use pretrend_ai.Base.Sort.{sort}

pub data ReleaseSource : Type 0 where
  econ_events fred_vintages assumed_t_plus_1 : ReleaseSource

pub data Direction : Type 0 where
  flat up down : Direction

pub data Regime : Type 0 where
  tightening easing neutral : Regime

abbrev drop : {A : Type 0} → ℕ → List A → List A
drop zero xs = xs
drop (suc n) [] = []
drop (suc n) (x ∷ xs) = drop n xs

abbrev nth : {A : Type 0} → List A → ℕ → Option A
nth [] i = none
nth (x ∷ xs) zero = some x
nth (x ∷ xs) (suc i) = nth xs i

module _ (fl : FloatOps) where
  open fl use {F, lit, sub, div, lt, eq}

  -- The library calls of the features: `date - relativedelta(months=m)`, and the mean and the
  -- standard deviation of a series, of which the second may be NaN.
  pub record Library : Type 0 where
    pub minus_months : ℕ → ℕ → ℕ
    pub mean : List (Option F) → F
    pub std : List (Option F) → Option F

  -- A row of `merged`: Silver macro joined with the release calendar.
  pub record Merged : Type 0 where
    pub indicator_id : ℕ
    pub observation_date : ℕ
    pub value : Option F
    pub release_date : ℕ
    pub release_source : ReleaseSource
    pub is_assumption_based : Bool

  abbrev pub Deltas : Type 0
  Deltas = Option F × Option F × Option F

  pub record Feature : Type 0 where
    pub indicator_id : ℕ
    pub trade_date : ℕ
    pub selected_observation_date : ℕ
    pub selected_value : Option F
    pub selected_release_date : ℕ
    pub deltas : Deltas
    pub direction : Option Direction
    pub regime : Option Regime
    pub zscore_12m : Option F
    pub release_source : ReleaseSource
    pub is_assumption_based : Bool

  -- `selected - other`, or None where the other value is missing
  abbrev delta : F → Option F → Option F
  delta v none = none
  delta v (some w) = some (sub v w)

  abbrev value_at_date : ℕ → List Merged → Option F
  value_at_date d [] = none
  value_at_date d (r ∷ rows) =
      let rest = value_at_date d rows in if r.observation_date == d then r.value else rest

  unfoldable pub monthly_deltas : Library → List Merged → ℕ → Option F → Deltas
  monthly_deltas lib pit obs none = (none, none, none)
  monthly_deltas lib pit obs (some v) = (
    delta v (value_at_date (lib.minus_months obs 1) pit),
    delta v (value_at_date (lib.minus_months obs 3) pit),
    delta v (value_at_date (lib.minus_months obs 6) pit),
  )

  abbrev value_of : Option Merged → Option F
  value_of none = none
  value_of (some r) = r.value

  abbrev shifted : List Merged → ℕ → F → ℕ → Option F
  shifted pit idx v shift =
      if ltb idx shift then none else delta v (value_of (nth pit (idx - shift)))

  unfoldable pub daily_deltas : List Merged → ℕ → Option F → Deltas
  daily_deltas pit idx none = (none, none, none)
  daily_deltas pit idx (some v) =
      (shifted pit idx v 21, shifted pit idx v 63, shifted pit idx v 126)

  unfoldable pub direction_of : Option F → Option Direction
  direction_of none = none
  direction_of (some d) =
      if eq d (lit 0 0)
      then some Direction.flat
      else if lt (lit 0 0) d
      then some Direction.up
      else some Direction.down

  unfoldable pub regime_of : Option F → Option F → Option Regime
  regime_of none d6 = none
  regime_of (some d3) none = none
  regime_of (some d3) (some d6) =
      if lt (lit 0 0) d3 && lt (lit 0 0) d6
      then some Regime.tightening
      else if lt d3 (lit 0 0) && lt d6 (lit 0 0)
      then some Regime.easing
      else some Regime.neutral

  abbrev standardise : Library → F → List (Option F) → Option F → Option F
  standardise lib v trailing none = none
  standardise lib v trailing (some s) =
      if eq s (lit 0 0) then none else some (div (sub v (lib.mean trailing)) s)

  unfoldable pub zscore_12m_of : Library → List Merged → ℕ → Option F → Bool → Option F
  zscore_12m_of lib pit idx none daily = none
  zscore_12m_of lib pit idx (some v) daily =
      let window = if daily then 252 else 12 in
      let values = map (λ (r : Merged). r.value) (take (suc idx) pit) in
      let trailing = drop (length values - window) values in
      if ltb (length values) window then none else standardise lib v trailing (lib.std trailing)

  -- `idxmax` of the release dates: the first row with the latest one
  abbrev pub latest_from : Merged → ℕ → ℕ → List Merged → Merged × ℕ
  latest_from best at i [] = (best, at)
  latest_from best at i (r ∷ rows) =
      latest_from (if ltb best.release_date r.release_date then r else best)
        (if ltb best.release_date r.release_date then i else at) (suc i) rows

  unfoldable pub latest : Merged → List Merged → Merged × ℕ
  latest r rows = latest_from r 0 1 rows

  -- `ind["release_date"] < trade_date` on the rows of the indicator, in observation order
  unfoldable pub pit_rows : List Merged → ℕ → ℕ → List Merged
  unfolding sort
  pit_rows merged ind td =
      sort (λ (a b : Merged). ltb a.observation_date b.observation_date)
        (keep (λ (r : Merged). ltb r.release_date td)
          (keep (λ (r : Merged). r.indicator_id == ind) merged))

  module _ (lib : Library) (is_daily : ℕ → Bool) where
    abbrev pub feature : ℕ → ℕ → List Merged → Merged × ℕ → Feature
    feature ind td pit (sel, idx) =
        let d =
          if is_daily ind
          then daily_deltas pit idx sel.value
          else monthly_deltas lib pit sel.observation_date sel.value in
        record {
          indicator_id = ind;
          trade_date = td;
          selected_observation_date = sel.observation_date;
          selected_value = sel.value;
          selected_release_date = sel.release_date;
          deltas = d;
          direction = direction_of d.0;
          regime = regime_of d.1 d.2;
          zscore_12m = zscore_12m_of lib pit idx sel.value (is_daily ind);
          release_source = sel.release_source;
          is_assumption_based = sel.is_assumption_based;
        }

    abbrev pub compute : ℕ → ℕ → List Merged → Option Feature
    compute ind td [] = none
    compute ind td (r ∷ rows) = some (feature ind td (r ∷ rows) (latest r rows))

    unfoldable pub select_and_compute : List Merged → ℕ → ℕ → Option Feature
    unfolding pit_rows latest daily_deltas monthly_deltas direction_of regime_of zscore_12m_of
    select_and_compute merged ind td = compute ind td (pit_rows merged ind td)

    -- `sorted(merged["indicator_id"].unique())`
    abbrev pub uniques : List ℕ → List ℕ
    uniques [] = []
    uniques (i ∷ is) = let rest = uniques is in if any (λ j. i == j) is then rest else i ∷ rest

    abbrev pub add : Option Feature → List Feature → List Feature
    add none fs = fs
    add (some f) fs = f ∷ fs

    abbrev pub features_at : List Merged → ℕ → List ℕ → List Feature
    features_at merged td [] = []
    features_at merged td (ind ∷ inds) =
        add (select_and_compute merged ind td) (features_at merged td inds)

    abbrev pub features_from : List Merged → List ℕ → List ℕ → List Feature
    features_from merged inds [] = []
    features_from merged inds (td ∷ tds) =
        features_at merged td inds ++ features_from merged inds tds

    abbrev pub before : Feature → Feature → Bool
    before a b =
        ltb a.indicator_id b.indicator_id
        || (a.indicator_id == b.indicator_id && ltb a.trade_date b.trade_date)

    unfoldable pub build_gold_macro_features : List Merged → List ℕ → List Feature
    unfolding sort select_and_compute
    build_gold_macro_features merged trade_dates =
        let inds = sort ltb (uniques (map (λ (r : Merged). r.indicator_id) merged)) in
        sort before (features_from merged inds trade_dates)
