-- ===== src/Regime/Rotation/PointInTime.antt =====
-- The rotation of asset groups looks at no later row.
use mathlib.Core.List.{map-append, append-nil}
use pretrend_ai.Base.{
  ℕ, ◌≡◌, refl, ap, sym, ◌∙◌, true, false, ◌&&◌, ◌==◌, leb, List, [], ◌∷◌, ◌++◌, map, keep, any,
  take, length, length-map, All, All-mono, keep_sound, keep_passing, keep_nothing, keep-append,
  keep_comm, Bool-cases, inl, inr, arith,
}
use pretrend_ai.Base.Float.{FloatOps}
use pretrend_ai.Base.SortedDates.{upto, after, keep-sort, split-sorted}
use pretrend_ai.Regime.Episodes.{Stats, state_history}
use pretrend_ai.Regime.Episodes.PointInTime.{state_history_no_look_ahead}
use pretrend_ai.Regime.Rotation.{
  Group, GroupState, GroupState-discrete, Kept, GroupDay, Transition, same_group, distinct_dates,
  group_dates, group_day, zip_days, transitions_of, group_transitions,
}

any-upto :
    (t i : ℕ) (js : List ℕ)
    → upto t i ≡ true
    → any (λ j. i == j) (keep (upto t) js) ≡ any (λ j. i == j) js
any-upto t i [] h = refl
any-upto t i (j ∷ js) h = ground (arith, any-upto t i js h)

module _ (fl : FloatOps) (median : List fl.F → fl.F) where
  keep-distinct :
      (t : ℕ) (ds : List ℕ)
      → keep (upto t) (distinct_dates fl median ds) ≡ distinct_dates fl median (keep (upto t) ds)
  keep-distinct t [] = refl
  keep-distinct t (d ∷ ds) = elim (Bool-cases (upto t d)) [
    | inl e ↦ elim (Bool-cases (any (λ j. d == j) ds)) [
      | inl k ↦ rw (e, any-upto t d ds e, k) (keep-distinct t ds)
      | inr k ↦ rw (e, any-upto t d ds e, k, e) (ap (λ l. d ∷ l) (keep-distinct t ds))
    ]
    | inr e ↦ elim (Bool-cases (any (λ j. d == j) ds)) [
      | inl k ↦ rw (e, k) (keep-distinct t ds)
      | inr k ↦ rw (e, k, e) (keep-distinct t ds)
    ]
  ]

  -- the rows up to a day
  abbrev pub early : ℕ → List (Kept fl median) → List (Kept fl median)
  early t rows = keep (λ (r : Kept fl median). leb r.date t) rows

  keep-dates :
      (t : ℕ) (rows : List (Kept fl median))
      → keep (upto t) (map (λ (r : Kept fl median). r.date) rows)
        ≡ map (λ (r : Kept fl median). r.date) (early t rows)
  keep-dates t [] = refl
  keep-dates t (r ∷ rows) = ground (arith, keep-dates t rows)

  group_dates-early :
      (t : ℕ) (g : Group) (rows : List (Kept fl median))
      → keep (upto t) (group_dates fl median g rows) ≡ group_dates fl median g (early t rows)
  unfolding group_dates
  group_dates-early t g rows =
      let of_group = λ (r : Kept fl median). same_group r.group g in
      rw
        (
          keep-sort t (
              distinct_dates fl median (map (λ (r : Kept fl median). r.date) (keep of_group rows))),
          keep-distinct t (map (λ (r : Kept fl median). r.date) (keep of_group rows)),
          keep-dates t (keep of_group rows),
          keep_comm (λ (r : Kept fl median). leb r.date t) of_group rows,
        )
        refl

  keep-early :
      (t d : ℕ) (g : Group) (rows : List (Kept fl median))
      → upto t d ≡ true
      → keep (λ (r : Kept fl median). same_group r.group g && r.date == d) (early t rows)
        ≡ keep (λ (r : Kept fl median). same_group r.group g && r.date == d) rows
  keep-early t d g [] h = refl
  keep-early t d g (r ∷ rows) h = ground (arith, keep-early t d g rows h)

  group_days-early :
      (t : ℕ) (g : Group) (rows : List (Kept fl median)) (ds : List ℕ)
      → All (λ d. upto t d ≡ true) ds
      → map (group_day fl median g rows) ds ≡ map (group_day fl median g (early t rows)) ds
  unfolding group_day
  group_days-early t g rows [] h = refl
  group_days-early t g rows (d ∷ ds) h =
      rw (keep-early t d g rows h.0, group_days-early t g rows ds h.1) refl

  rest_of : List (GroupDay fl median) → List (Stats GroupState) → List (Stats GroupState)
  rest_of [] stats = stats
  rest_of (d ∷ days) [] = []
  rest_of (d ∷ days) (s ∷ stats) = rest_of days stats

  zip-append :
      (ds es : List (GroupDay fl median)) (stats : List (Stats GroupState))
      → zip_days fl median (ds ++ es) stats
        ≡ zip_days fl median ds (take (length ds) stats) ++ zip_days fl median es (rest_of ds stats)
  unfolding rest_of
  zip-append [] es stats = refl
  zip-append (d ∷ ds) [] [] = refl
  zip-append (d ∷ ds) (e ∷ es) [] = refl
  zip-append (d ∷ ds) es (s ∷ stats) = rw (zip-append ds es stats) refl

  zip-All :
      (P : GroupDay fl median → Type 0) (ds : List (GroupDay fl median))
      (stats : List (Stats GroupState))
      → All P ds
      → All (λ (r : Transition fl median). P r.day) (zip_days fl median ds stats)
  zip-All P [] stats h = tt
  zip-All P (d ∷ ds) [] h = tt
  zip-All P (d ∷ ds) (s ∷ stats) h = (h.0, zip-All P ds stats h.1)

  group_day-date :
      (P : ℕ → Type 0) (g : Group) (rows : List (Kept fl median)) (ds : List ℕ)
      → All P ds
      → All (λ (d : GroupDay fl median). P d.date) (map (group_day fl median g rows) ds)
  unfolding group_day
  group_day-date P g rows [] h = tt
  group_day-date P g rows (d ∷ ds) h = (h.0, group_day-date P g rows ds h.1)

  transitions_of-All :
      (P : GroupDay fl median → Type 0) (ds : List (GroupDay fl median))
      → All P ds
      → All (λ (r : Transition fl median). P r.day) (transitions_of fl median ds)
  unfolding transitions_of
  transitions_of-All P ds h = zip-All P ds _ h

  split_dates :
      (t : ℕ) (g : Group) (rows : List (Kept fl median))
      → group_dates fl median g rows
        ≡ keep (upto t) (group_dates fl median g rows)
          ++ keep (after t) (group_dates fl median g rows)
  unfolding group_dates
  split_dates t g rows = split-sorted t (
      distinct_dates fl median (
        map (λ (r : Kept fl median). r.date)
          (keep (λ (r : Kept fl median). same_group r.group g) rows)))

  later_stats : List (GroupDay fl median) → List (GroupDay fl median) → List (Stats GroupState)
  later_stats ds es = rest_of ds (
      state_history GroupState-discrete (5 ∷ 10 ∷ 20 ∷ [])
        (map (λ (d : GroupDay fl median). d.state) (ds ++ es)))

  transitions_of-split :
      (ds es : List (GroupDay fl median))
      → transitions_of fl median (ds ++ es)
        ≡ transitions_of fl median ds ++ zip_days fl median es (later_stats ds es)
  unfolding transitions_of later_stats
  transitions_of-split ds es =
      let state = λ (d : GroupDay fl median). d.state in
      let history =
        λ (xs : List GroupState). state_history GroupState-discrete (5 ∷ 10 ∷ 20 ∷ []) xs in
      let known : take (length ds) (history (map state (ds ++ es))) ≡ history (map state ds) =
        ap (λ xs. take (length ds) (history xs)) (map-append state ds es)
        ∙ (ap (λ n. take n (history (map state ds ++ map state es))) (sym (length-map ds state))
            ∙ state_history_no_look_ahead GroupState-discrete (5 ∷ 10 ∷ 20 ∷ []) (map state ds)
                (map state es)) in
      zip-append ds es (history (map state (ds ++ es)))
      ∙ ap
          (λ h.
            zip_days fl median ds h
            ++ zip_days fl median es (rest_of ds (history (map state (ds ++ es)))))
          known

  -- The transitions of a group up to a day are the transitions that the rows up to that day give: neither
  -- the states, nor their ages, expectations and survival counts depend on a later row.
  pub rotation_no_look_ahead :
      (t : ℕ) (g : Group) (rows : List (Kept fl median))
      → keep (λ (r : Transition fl median). leb r.day.date t) (group_transitions fl median g rows)
        ≡ group_transitions fl median g (early t rows)
  unfolding group_transitions
  rotation_no_look_ahead t g rows =
      let p = λ (r : Transition fl median). leb r.day.date t in
      let dates = group_dates fl median g rows in
      let first = keep (upto t) dates in
      let second = keep (after t) dates in
      let ds = map (group_day fl median g rows) first in
      let es = map (group_day fl median g rows) second in
      let days : map (group_day fl median g rows) dates ≡ ds ++ es =
        ap (map (group_day fl median g rows)) (split_dates t g rows)
        ∙ map-append (group_day fl median g rows) first second in
      let kept : keep p (transitions_of fl median ds) ≡ transitions_of fl median ds =
        keep_passing p (transitions_of fl median ds) (
          transitions_of-All (λ d. leb d.date t ≡ true) ds
            (group_day-date (λ d. upto t d ≡ true) g rows first (keep_sound (upto t) dates))) in
      let gone : keep p (zip_days fl median es (later_stats ds es)) ≡ [] =
        keep_nothing p (zip_days fl median es (later_stats ds es)) (
          zip-All (λ d. leb d.date t ≡ false) es (later_stats ds es)
            (group_day-date (λ d. upto t d ≡ false) g rows second
              (All-mono (λ d. after t d ≡ true) (λ d. upto t d ≡ false) (λ d h. ground arith) second
                (keep_sound (after t) dates)))) in
      let same : ds
          ≡ map (group_day fl median g (early t rows)) (group_dates fl median g (early t rows)) =
        group_days-early t g rows first (keep_sound (upto t) dates)
        ∙ ap (map (group_day fl median g (early t rows))) (group_dates-early t g rows) in
      ap (λ l. keep p (transitions_of fl median l)) days
      ∙ (ap (keep p) (transitions_of-split ds es)
          ∙ (keep-append p (transitions_of fl median ds) (zip_days fl median es (later_stats ds es))
              ∙ (ap (λ l. keep p (transitions_of fl median ds) ++ l) gone
                  ∙ (append-nil (keep p (transitions_of fl median ds))
                      ∙ (kept ∙ ap (transitions_of fl median) same)))))
