-- ===== src/Similarity/Ranking.antt =====
-- What `cosine_topn` returns.
use pretrend_ai.Base.{
  ℕ, zero, suc, ◌+◌, ◌≤◌, ◌≡◌, refl, ltb, List, [], ◌∷◌, map, take, length, All, take-All,
  length-take-le, arith, Bool-cases, inl, inr,
}
use pretrend_ai.Base.Float.{FloatOps}
use pretrend_ai.Base.Sort.{sort, sort-All}
use pretrend_ai.Similarity.TopN.{Neighbor, cosine, scored, before, ranked, cosine_topn}

-- k, k + 1, and so on, n numbers
abbrev pub count_from : ℕ → ℕ → List ℕ
count_from k zero = []
count_from k (suc n) = k ∷ count_from (suc k) n

module _ (fl : FloatOps) (Vec : Type 0) (norm : Vec → fl.F) (dot : Vec → Vec → fl.F) where
  abbrev pub IsFar : ℕ → ℕ → Neighbor fl Vec norm dot → Type 0
  IsFar query_date min_gap r =
      (r.neighbor_date + min_gap ≤ query_date) × (r.neighbor_date + r.gap_days ≡ query_date)

  scored-IsFar :
      (query : Vec) (query_date min_gap : ℕ) (cs : List (ℕ × Vec))
      → All (IsFar query_date min_gap) (scored fl Vec norm dot query query_date min_gap cs)
  unfolding scored
  scored-IsFar query query_date min_gap [] = tt
  scored-IsFar query query_date min_gap ((d, v) ∷ cs) =
      let ih = scored-IsFar query query_date min_gap cs in
      let s = cosine fl Vec norm dot query v in
      elim (Bool-cases (ltb query_date (d + min_gap))) [
        | inl near ↦ rw near ih
        | inr far ↦ elim (Bool-cases (fl.lt s (fl.lit 0 0))) [
          | inl neg ↦ rw (far, neg) ih
          | inr nonneg ↦ rw (far, nonneg) ((ground arith, ground arith), ih)
        ]
      ]

  ranked-All :
      (P : Neighbor fl Vec norm dot → Type 0) (k : ℕ) (rows : List (Neighbor fl Vec norm dot))
      → All P rows
      → All (λ r. P r.1) (ranked fl Vec norm dot k rows)
  ranked-All P k [] h = tt
  ranked-All P k (r ∷ rows) h = (h.0, ranked-All P (suc k) rows h.1)

  ranks-ranked :
      (k : ℕ) (rows : List (Neighbor fl Vec norm dot))
      → map (λ r. r.0) (ranked fl Vec norm dot k rows) ≡ count_from k (length rows)
  ranks-ranked k [] = refl
  ranks-ranked k (r ∷ rows) = rw (ranks-ranked (suc k) rows)

  length-ranked :
      (k : ℕ) (rows : List (Neighbor fl Vec norm dot))
      → length (ranked fl Vec norm dot k rows) ≡ length rows
  length-ranked k [] = refl
  length-ranked k (r ∷ rows) = omega (arith, length-ranked (suc k) rows)

  -- Every neighbour lies at least the minimal gap before the query date and its `gap_days` is the
  -- distance to it; there are at most n neighbours; and their ranks are 1, 2, 3 and so on.
  pub topn_gap_and_ranks :
      (query : Vec) (cs : List (ℕ × Vec)) (query_date n min_gap : ℕ)
      → let out = cosine_topn fl Vec norm dot query cs query_date n min_gap in
        All (λ r. IsFar query_date min_gap r.1) out
        × (length out ≤ n)
        × (map (λ r. r.0) out ≡ count_from 1 (length out))
  unfolding cosine_topn
  topn_gap_and_ranks query cs query_date n min_gap =
      elim (Bool-cases (fl.eq (norm query) (fl.lit 0 0))) [
        | inl z ↦ rw z (tt, omega arith, refl)
        | inr nz ↦
            let rows =
              sort (before fl Vec norm dot) (scored fl Vec norm dot query query_date min_gap cs) in
            rw nz (
              ranked-All (IsFar query_date min_gap) 1 (take n rows) (
                  take-All (IsFar query_date min_gap) n rows (
                    sort-All (before fl Vec norm dot) (IsFar query_date min_gap) _
                      (scored-IsFar query query_date min_gap cs))),
              omega (arith, length-ranked 1 (take n rows), length-take-le n rows),
              rw (length-ranked 1 (take n rows)) (ranks-ranked 1 (take n rows)),
            )
      ]
