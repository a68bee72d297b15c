-- ===== src/Gold/PointInTime.antt =====
-- The point-in-time gate of the macro features.
use mathlib.Core.Option.{some-injective}
use mathlib.Core.Path.{subst}
use pretrend_ai.Base.{
  ℕ, suc, ◌≤◌, ◌<◌, ◌≡◌, refl, Bool, true, false, Option, none, some, List, [], ◌∷◌, keep, ltb,
  ◌==◌, map, All, All-mono, append-All, keep_sound, keep_comm, if◌then◌else◌, arith, ltb→lt, ap,
  ◌∙◌,
}
use pretrend_ai.Base.Float.{FloatOps}
use pretrend_ai.Base.Sort.{sort, sort-All}
use pretrend_ai.Gold.Select.{
  Merged, Feature, Library, latest_from, latest, compute, pit_rows, select_and_compute, add,
  features_at, features_from, before, uniques, build_gold_macro_features,
}

module _ (fl : FloatOps) where
  pub latest_from-All {κ} :
      (P : Merged fl → Type κ) (best : Merged fl) (at i : ℕ) (rows : List (Merged fl))
      → P best
      → All P rows
      → P (latest_from fl best at i rows).0
  latest_from-All P best at i [] p h = p
  latest_from-All P best at i (r ∷ rows) p h =
      latest_from-All P (if ltb best.release_date r.release_date then r else best)
        (if ltb best.release_date r.release_date then i else at) (suc i) rows
        (elim (ltb best.release_date r.release_date) as (λ b. P (if b then r else best)) [
          | true ↦ h.0
          | false ↦ p
        ])
        h.1

  pub latest_from-le :
      (best : Merged fl) (at i : ℕ) (rows : List (Merged fl))
      → best.release_date ≤ (latest_from fl best at i rows).0.release_date
  latest_from-le best at i [] = omega arith
  latest_from-le best at i (r ∷ rows) = ground (
    arith,
    latest_from-le (if ltb best.release_date r.release_date then r else best)
        (if ltb best.release_date r.release_date then i else at) (suc i) rows,
  )

  pub latest_from_max :
      (best : Merged fl) (at i : ℕ) (rows : List (Merged fl))
      → All
          (λ (r : Merged fl). r.release_date ≤ (latest_from fl best at i rows).0.release_date)
          rows
  latest_from_max best at i [] = tt
  latest_from_max best at i (r ∷ rows) =
      let b = if ltb best.release_date r.release_date then r else best in
      let j = if ltb best.release_date r.release_date then i else at in
      (ground (arith, latest_from-le b j (suc i) rows), latest_from_max b j (suc i) rows)

  pit_rows-before :
      (merged : List (Merged fl)) (ind td : ℕ)
      → All (λ (r : Merged fl). r.release_date < td) (pit_rows fl merged ind td)
  unfolding pit_rows
  pit_rows-before merged ind td =
      let ofind = keep (λ (r : Merged fl). r.indicator_id == ind) merged in
      sort-All (λ (a b : Merged fl). ltb a.observation_date b.observation_date)
        (λ (r : Merged fl). r.release_date < td) _
        (All-mono (λ (r : Merged fl). ltb r.release_date td ≡ true)
          (λ (r : Merged fl). r.release_date < td) (λ r h. ltb→lt _ _ h) _
          (keep_sound (λ (r : Merged fl). ltb r.release_date td) ofind))

  pit_rows-same :
      (m₁ m₂ : List (Merged fl)) (ind td : ℕ)
      → keep (λ (r : Merged fl). ltb r.release_date td) m₁
        ≡ keep (λ (r : Merged fl). ltb r.release_date td) m₂
      → pit_rows fl m₁ ind td ≡ pit_rows fl m₂ ind td
  unfolding pit_rows
  pit_rows-same m₁ m₂ ind td h =
      let released = λ (r : Merged fl). ltb r.release_date td in
      let ours = λ (r : Merged fl). r.indicator_id == ind in
      ap (sort (λ (a b : Merged fl). ltb a.observation_date b.observation_date))
        (keep_comm released ours m₁ ∙ ap (keep ours) h ∙ keep_comm ours released m₂)

  module _ (lib : Library fl) (is_daily : ℕ → Bool) where
    abbrev IsBefore : ℕ → Feature fl → Type 0
    IsBefore td f = (f.trade_date ≡ td) × (f.selected_release_date < td)

    compute-IsBefore :
        (ind td : ℕ) (pit : List (Merged fl)) {f : Feature fl}
        → All (λ (r : Merged fl). r.release_date < td) pit
        → compute fl lib is_daily ind td pit ≡ some f
        → IsBefore td f
    unfolding latest
    compute-IsBefore ind td [] h e = cc
    compute-IsBefore ind td (r ∷ rows) h e =
        subst (IsBefore td) (some-injective _ _ e)
          (refl, latest_from-All (λ (x : Merged fl). x.release_date < td) r 0 1 rows h.0 h.1)

    -- The release that a feature reads is before its trade date.
    select-IsBefore :
        (merged : List (Merged fl)) (ind td : ℕ) {f : Feature fl}
        → select_and_compute fl lib is_daily merged ind td ≡ some f
        → IsBefore td f
    unfolding select_and_compute
    select-IsBefore merged ind td e =
        compute-IsBefore ind td (pit_rows fl merged ind td) (pit_rows-before merged ind td) e

    -- The feature of a trade date depends only on the rows released before it: two joins that agree
    -- on those give the same feature, whatever is released on that date or later.
    pub select_no_look_ahead :
        (m₁ m₂ : List (Merged fl)) (ind td : ℕ)
        → keep (λ (r : Merged fl). ltb r.release_date td) m₁
          ≡ keep (λ (r : Merged fl). ltb r.release_date td) m₂
        → select_and_compute fl lib is_daily m₁ ind td
          ≡ select_and_compute fl lib is_daily m₂ ind td
    unfolding select_and_compute
    select_no_look_ahead m₁ m₂ ind td h = rw (pit_rows-same m₁ m₂ ind td h)

    abbrev Gated : Feature fl → Type 0
    Gated f = f.selected_release_date < f.trade_date

    add-Gated :
        (o : Option (Feature fl)) (fs : List (Feature fl))
        → ((f : Feature fl) → o ≡ some f → Gated f)
        → All Gated fs
        → All Gated (add fl lib is_daily o fs)
    add-Gated none fs h k = k
    add-Gated (some f) fs h k = (h f refl, k)

    features_at-Gated :
        (merged : List (Merged fl)) (td : ℕ) (inds : List ℕ)
        → All Gated (features_at fl lib is_daily merged td inds)
    features_at-Gated merged td [] = tt
    features_at-Gated merged td (ind ∷ inds) =
        add-Gated (select_and_compute fl lib is_daily merged ind td) _
          (λ f e. let l = select-IsBefore merged ind td e in omega (arith, l.0, l.1))
          (features_at-Gated merged td inds)

    features_from-Gated :
        (merged : List (Merged fl)) (inds tds : List ℕ)
        → All Gated (features_from fl lib is_daily merged inds tds)
    features_from-Gated merged inds [] = tt
    features_from-Gated merged inds (td ∷ tds) =
        append-All Gated (features_at fl lib is_daily merged td inds) _
          (features_at-Gated merged td inds) (features_from-Gated merged inds tds)

    -- Every row of the table obeys the gate: the release that it reads is strictly before its trade
    -- date.
    pub build_gated :
        (merged : List (Merged fl)) (trade_dates : List ℕ)
        → All
            (λ (f : Feature fl). f.selected_release_date < f.trade_date)
            (build_gold_macro_features fl lib is_daily merged trade_dates)
    unfolding build_gold_macro_features
    build_gated merged trade_dates = sort-All (before fl lib is_daily) Gated _ (
        features_from-Gated merged
          (sort ltb (uniques fl lib is_daily (map (λ (r : Merged fl). r.indicator_id) merged)))
          trade_dates)
