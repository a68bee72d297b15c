-- ===== src/Similarity/TopN.antt =====
-- `cosine_topn` and the builders of src/pretrend/observability/similarity/builder.py. The vector
-- operations of numpy and the feature matrix are parameters; a date is its ordinal, and a build time is the
-- number that the clock shows.
use pretrend_ai.Base.{
  ℕ, suc, ◌+◌, ◌-◌, Bool, ◌&&◌, ◌||◌, not, ◌==◌, ltb, leb, Option, none, some, List, [], ◌∷◌, ◌++◌,
  map, keep, take, any, length, if◌then◌else◌,
}
use pretrend_ai.Base.Float.{FloatOps, fmin, fneg}
use pretrend_ai.Base.Sort.{sort}

module _ (fl : FloatOps) (Vec : Type 0) (norm : Vec → fl.F) (dot : Vec → Vec → fl.F) where
  open fl use {F, lit, mul, div, lt, eq}

  pub record Neighbor : Type 0 where
    pub neighbor_date : ℕ
    pub score : F
    pub gap_days : ℕ

  abbrev pub cosine : Vec → Vec → F
  cosine query candidate =
      if eq (norm candidate) (lit 0 0)
      then lit 0 1
      else div (dot query candidate) (mul (norm query) (norm candidate))

  -- The loop over the candidates. `gap_days < min_gap` is `query_date < candidate_date + min_gap`, so
  -- the gap that is kept is not negative.
  unfoldable pub scored : Vec → ℕ → ℕ → List (ℕ × Vec) → List Neighbor
  scored query query_date min_gap [] = []
  scored query query_date min_gap ((d, v) ∷ rest) =
      let others = scored query query_date min_gap rest in
      let s = cosine query v in
      if ltb query_date (d + min_gap)
      then others
      else if lt s (lit 0 0)
      then others
      else record { neighbor_date = d; score = fmin fl s (lit 10 1); gap_days = query_date - d }
        ∷ others

  -- the order of `(-score, neighbor_date)`
  abbrev pub before : Neighbor → Neighbor → Bool
  before a b =
      lt (fneg fl a.score) (fneg fl b.score)
      || (eq (fneg fl a.score) (fneg fl b.score) && ltb a.neighbor_date b.neighbor_date)

  -- `enumerate(top_rows, start=1)`
  abbrev pub ranked : ℕ → List Neighbor → List (ℕ × Neighbor)
  ranked rank [] = []
  ranked rank (r ∷ rows) = (rank, r) ∷ ranked (suc rank) rows

  unfoldable pub cosine_topn : Vec → List (ℕ × Vec) → ℕ → ℕ → ℕ → List (ℕ × Neighbor)
  unfolding scored sort
  cosine_topn query candidates query_date n min_gap =
      if eq (norm query) (lit 0 0)
      then []
      else ranked 1 (take n (sort before (scored query query_date min_gap candidates)))

  -- a neighbour of a query date, with its rank, before it is written
  abbrev pub Row : Type 0
  Row = ℕ × ℕ × Neighbor

  -- a row of the table `similarity_regime` or `similarity_gold`: the build time comes last
  abbrev pub Stored : Type 0
  Stored = ℕ × ℕ × Neighbor × ℕ

  -- `{**row, "built_at": built_at}`
  abbrev pub stamped : ℕ → Row → Stored
  stamped built_at r = (r.0, r.1, r.2, built_at)

  -- `features.loc[query_date]`
  abbrev pub vector_at : ℕ → List (ℕ × Vec) → Option Vec
  vector_at d [] = none
  vector_at d ((e, v) ∷ rest) = if e == d then some v else vector_at d rest

  abbrev pub rows_of : ℕ → Option Vec → List (ℕ × Vec) → List Row
  rows_of d none features = []
  rows_of d (some v) features = map (λ r. (d, r.0, r.1)) (cosine_topn v features d 100 30)

  unfoldable pub build_rows_for_view : List ℕ → List (ℕ × Vec) → List Row
  unfolding cosine_topn
  build_rows_for_view [] features = []
  build_rows_for_view (d ∷ ds) features =
      rows_of d (vector_at d features) features ++ build_rows_for_view ds features

  abbrev pub member : ℕ → List ℕ → Bool
  member d ds = any (λ e. d == e) ds

  -- `_replace_similarity_rows` on the table, at the time that the clock shows: the delete and the insert of
  -- one transaction
  unfoldable pub replace_rows : ℕ → List ℕ → List Row → List Stored → List Stored
  replace_rows built_at [] rows table = table
  replace_rows built_at (d ∷ ds) rows table =
      keep (λ r. not (member r.0 (d ∷ ds))) table ++ map (stamped built_at) rows

  -- `build_similarity_regime` and `build_similarity_gold`, which differ in where the dates and the
  -- features come from: the new table and the number of rows that the query reports
  unfoldable pub build_similarity :
      ℕ → ℕ → ℕ → List ℕ → List (ℕ × Vec) → List Stored → List Stored × ℕ × ℕ
  unfolding build_rows_for_view replace_rows
  build_similarity built_at query_start query_end candidate_dates features table =
      let query_dates = keep (λ d. leb query_start d && leb d query_end) candidate_dates in
      let rows = build_rows_for_view query_dates features in
      (
        replace_rows built_at query_dates rows table,
        if ltb 0 (length query_dates) then length rows else 0,
        length query_dates,
      )
