-- ===== src/Scenarios/Gold.antt =====
-- The point-in-time features and the release calendar on concrete rows.
use mathlib.Core.List.{Perm}
use pretrend_ai.Base.{ℕ, ◌<◌, ◌≡◌, refl, Bool, true, false, some, List, [], ◌∷◌, map, All, ◌-◌, ◌*◌}
use pretrend_ai.Base.Float.{decimal}
use pretrend_ai.Base.Sort.{sort}
use pretrend_ai.Gold.Select.{
  ReleaseSource, Library, Merged, Feature, pit_rows, select_and_compute, build_gold_macro_features,
  latest, feature,
}
use pretrend_ai.Gold.PointInTime.{select_no_look_ahead, build_gated}
use pretrend_ai.Gold.Latest.{IsNewest, selects_latest_release}
use pretrend_ai.Gold.Calendar.{Key, Vintage, build_release_calendar, drop_duplicates}
use pretrend_ai.Gold.Cascade.{specified, calendar-specified}

-- months of 30 days, and a mean and a deviation that are constant
abbrev lib : Library decimal
lib = record {
  minus_months = λ d m. d - 30 * m;
  mean = λ xs. decimal.lit 1 0;
  std = λ xs. some (decimal.lit 1 0);
}

abbrev is_daily : ℕ → Bool
is_daily i = false

abbrev row : ℕ → ℕ → Merged decimal
row observed released = record {
  indicator_id = 1;
  observation_date = observed;
  value = some (decimal.lit 5 0);
  release_date = released;
  release_source = ReleaseSource.econ_events;
  is_assumption_based = false;
}

-- released on days 40, 70 and 100
abbrev rows : List (Merged decimal)
rows = row 30 40 ∷ row 60 70 ∷ row 90 100 ∷ []

-- what day 100 may see
abbrev seen : List (Merged decimal)
seen = row 30 40 ∷ row 60 70 ∷ []

abbrev at_100 : Feature decimal
at_100 = feature decimal lib is_daily 1 100 seen (row 60 70, 1)

selected_at_100 : select_and_compute decimal lib is_daily rows 1 100 ≡ some at_100
unfolding select_and_compute pit_rows latest sort
selected_at_100 = refl

selects_latest_release_example :
    IsNewest decimal rows 1 100 (select_and_compute decimal lib is_daily rows 1 100)
selects_latest_release_example = selects_latest_release decimal rows 1 100 lib is_daily

select_no_look_ahead_example :
    select_and_compute decimal lib is_daily rows 1 100
    ≡ select_and_compute decimal lib is_daily seen 1 100
select_no_look_ahead_example = select_no_look_ahead decimal lib is_daily rows seen 1 100 refl

build_gated_example :
    All
      (λ (f : Feature decimal). f.selected_release_date < f.trade_date)
      (build_gold_macro_features decimal lib is_daily rows (50 ∷ 100 ∷ []))
build_gated_example = build_gated decimal lib is_daily rows (50 ∷ 100 ∷ [])

-- one observation with an event, one with a first vintage, one with neither, and a repetition
abbrev silver : List Key
silver = (1, 10) ∷ (1, 20) ∷ (2, 10) ∷ (1, 10) ∷ []

abbrev econ : List (Key × ℕ)
econ = ((1, 10), 15) ∷ []

abbrev vintages : List Vintage
vintages = record { key = (1, 20); vintage_date = 28; is_first_vintage = true } ∷ []

calendar-specified_example :
    Perm
      (build_release_calendar silver econ vintages)
      (map (specified econ vintages) (drop_duplicates [] silver))
calendar-specified_example = calendar-specified silver econ vintages
