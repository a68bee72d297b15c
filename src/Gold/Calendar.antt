-- ===== src/Gold/Calendar.antt =====
-- `build_release_calendar` of src/pretrend/pipeline/features/gold_macro_features.py: the release date
-- of each observation by a cascade of three tiers. Dates are ordinals and present; an indicator is
-- the rank of its name.
use pretrend_ai.Base.{
  ℕ, ◌+◌, Bool, true, false, ◌&&◌, not, ◌==◌, Option, none, some, List, [], ◌∷◌, ◌++◌, map, keep,
  any, if◌then◌else◌,
}
use pretrend_ai.Gold.Select.{ReleaseSource}

-- (indicator_id, observation_date)
abbrev pub Key : Type 0
Key = ℕ × ℕ

abbrev pub same_key : Key → Key → Bool
same_key (i, d) (j, e) = i == j && d == e

pub record Release : Type 0 where
  pub key : Key
  pub release_date : ℕ
  pub source : ReleaseSource
  pub is_assumption_based : Bool

-- a row of `fred_vintages`
pub record Vintage : Type 0 where
  pub key : Key
  pub vintage_date : ℕ
  pub is_first_vintage : Bool

-- `drop_duplicates()`, which keeps the first of equal rows
unfoldable pub drop_duplicates : List Key → List Key → List Key
drop_duplicates seen [] = []
drop_duplicates seen (k ∷ ks) =
    let rest = drop_duplicates (k ∷ seen) ks in
    if any (same_key k) seen then drop_duplicates seen ks else k ∷ rest

-- The date that an inner merge finds for a key, after `drop_duplicates(keep="first")` on the keys.
unfoldable pub first_date : List (Key × ℕ) → Key → Option ℕ
first_date [] k = none
first_date ((j, d) ∷ rows) k = let rest = first_date rows k in if same_key j k then some d else rest

abbrev pub release : ReleaseSource → Bool → Key → ℕ → Release
release source assumed k d = record {
  key = k;
  release_date = d;
  source = source;
  is_assumption_based = assumed;
}

-- the rows of one tier, in the order of the candidates
unfoldable pub tier : ReleaseSource → (Key → Option ℕ) → List Key → List Release
tier source date_of [] = []
tier source date_of (k ∷ ks) = elim (date_of k) [
  | none ↦ tier source date_of ks
  | some d ↦ release source false k d ∷ tier source date_of ks
]

-- the candidates that no row of the tier matches
unfoldable pub remaining : List Release → List Key → List Key
remaining matched = keep (λ k. not (any (same_key k) (map (λ r. r.key) matched)))

-- `observation_date + timedelta(days=1)`
abbrev pub assumed : Key → Release
assumed (i, d) = release ReleaseSource.assumed_t_plus_1 true (i, d) (d + 1)

unfoldable pub first_vintages : List Vintage → List (Key × ℕ)
first_vintages vs = map (λ v. (v.key, v.vintage_date)) (keep (λ v. v.is_first_vintage) vs)

unfoldable pub build_release_calendar : List Key → List (Key × ℕ) → List Vintage → List Release
unfolding drop_duplicates tier remaining first_date first_vintages
build_release_calendar silver econ vintages =
    let candidates = drop_duplicates [] silver in
    let tier1 = tier ReleaseSource.econ_events (first_date econ) candidates in
    let rest1 = remaining tier1 candidates in
    let tier2 = tier ReleaseSource.fred_vintages (first_date (first_vintages vintages)) rest1 in
    let rest2 = remaining tier2 rest1 in tier1 ++ (tier2 ++ map assumed rest2)
