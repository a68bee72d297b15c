-- ===== src/Regime/Rotation.antt =====
-- src/pretrend/observability/regime/rotation/engine.py: the state of an asset group from the relative
-- strengths of its candidates, and its transitions by the episode history. The median is the dataframe
-- library's, a parameter; a date that does not parse and a group that is no target are `none`.
pub mod PointInTime
use pretrend_ai.Base.{
  ℕ, ◌+◌, ◌*◌, Bool, true, false, ◌&&◌, ◌||◌, ◌==◌, ltb, Option, none, some, List, [], ◌∷◌, ◌++◌,
  map, keep, any, length, if◌then◌else◌, min,
}
use pretrend_ai.Base.Float.{FloatOps, fmin}
use pretrend_ai.Base.Int.{pos}
use pretrend_ai.Base.Sort.{sort}
use pretrend_ai.Regime.Episodes.{Stats, state_history}

-- `_TARGET_GROUPS`
pub data Group : Type 0 where
  sector commodity bond country : Group

-- the rank of its name
abbrev pub group_rank : Group → ℕ
group_rank Group.bond = 0
group_rank Group.commodity = 1
group_rank Group.country = 2
group_rank Group.sector = 3

abbrev pub same_group : Group → Group → Bool
same_group g h = group_rank g == group_rank h

pub data GroupState : Type 0 where
  strong neutral weak unknown : GroupState

pub GroupState-discrete : Discrete GroupState
GroupState-discrete = hlevel

module _ (fl : FloatOps) (median : List fl.F → fl.F) where
  open fl use {F, lit, of_int, add, mul, div, lt, le}

  pub record UniverseRow : Type 0 where
    pub trade_date : Option ℕ
    pub asset_group : Option Group
    pub is_candidate : Bool
    pub relative_strength : Option F

  -- a row that the filters keep
  pub record Kept : Type 0 where
    pub date : ℕ
    pub group : Group
    pub strength : F

  abbrev pub with_kept : Option ℕ → Option Group → Bool → Option F → List Kept → List Kept
  with_kept (some d) (some g) true (some s) rest =
      record { date = d; group = g; strength = s } ∷ rest
  with_kept _ _ _ _ rest = rest

  unfoldable pub kept_rows : List UniverseRow → List Kept
  kept_rows [] = []
  kept_rows (r ∷ rows) =
      with_kept r.trade_date r.asset_group r.is_candidate r.relative_strength (kept_rows rows)

  abbrev pub is_positive : F → Bool
  is_positive s = lt (lit 0 0) s

  -- `_classify_group_state`
  unfoldable pub classify_group_state : List F → GroupState × Option F
  classify_group_state values =
      let n = length values in
      let med = median values in
      let pos_ratio = div (of_int (pos (length (keep is_positive values)))) (of_int (pos n)) in
      let state =
        if lt (lit 0 0) med && le (lit 5 1) pos_ratio
        then GroupState.strong
        else if lt med (lit 0 0) && lt pos_ratio (lit 4 1)
        then GroupState.weak
        else GroupState.neutral in
      if ltb n 2 then (GroupState.unknown, none) else (
        state,
        some (fmin fl (lit 90 2) (add (lit 40 2) (mul (lit 10 2) (of_int (pos (min n 5)))))),
      )

  abbrev pub distinct_dates : List ℕ → List ℕ
  distinct_dates [] = []
  distinct_dates (d ∷ ds) =
      let rest = distinct_dates ds in if any (λ e. d == e) ds then rest else d ∷ rest

  -- the days of a group, in order
  unfoldable pub group_dates : Group → List Kept → List ℕ
  unfolding sort
  group_dates g rows =
      sort ltb (
        distinct_dates
          (map (λ (r : Kept). r.date) (keep (λ (r : Kept). same_group r.group g) rows)))

  -- a row of `_build_group_states`
  pub record GroupDay : Type 0 where
    pub date : ℕ
    pub state : GroupState
    pub confidence : Option F

  unfoldable pub group_day : Group → List Kept → ℕ → GroupDay
  unfolding classify_group_state
  group_day g rows d =
      let strengths =
        map (λ (r : Kept). r.strength)
          (keep (λ (r : Kept). same_group r.group g && r.date == d) rows) in
      let (state, confidence) = classify_group_state strengths in
      record { date = d; state = state; confidence = confidence }

  pub record Transition : Type 0 where
    pub day : GroupDay
    pub stats : Stats GroupState

  abbrev pub zip_days : List GroupDay → List (Stats GroupState) → List Transition
  zip_days [] stats = []
  zip_days (d ∷ days) [] = []
  zip_days (d ∷ days) (s ∷ stats) = record { day = d; stats = s } ∷ zip_days days stats

  -- the loop of `_build_group_transition` for one group
  unfoldable pub transitions_of : List GroupDay → List Transition
  unfolding state_history
  transitions_of days =
      zip_days days (
        state_history GroupState-discrete (5 ∷ 10 ∷ 20 ∷ []) (map (λ (d : GroupDay). d.state) days))

  unfoldable pub group_transitions : Group → List Kept → List Transition
  unfolding group_dates group_day transitions_of
  group_transitions g rows = transitions_of (map (group_day g rows) (group_dates g rows))

  abbrev pub row_before : Group × Transition → Group × Transition → Bool
  row_before (g, a) (h, b) =
      ltb a.day.date b.day.date || (a.day.date == b.day.date && ltb (group_rank g) (group_rank h))

  abbrev pub tagged : Group → List Kept → List (Group × Transition)
  tagged g rows = map (λ t. (g, t)) (group_transitions g rows)

  -- `build_group_transition_signal`, without the run id
  unfoldable pub build_group_transition_signal : List UniverseRow → List (Group × Transition)
  unfolding kept_rows group_transitions sort
  build_group_transition_signal rows =
      let kept = kept_rows rows in
      sort row_before (
        tagged Group.bond kept
        ++ (tagged Group.commodity kept ++ (tagged Group.country kept ++ tagged Group.sector kept)))
