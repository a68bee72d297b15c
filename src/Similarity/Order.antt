-- ===== src/Similarity/Order.antt =====
-- The order of the neighbours that `cosine_topn` returns.
use pretrend_ai.Base.{
  ℕ, zero, suc, ◌≡◌, refl, Bool, true, false, ◌&&◌, ◌||◌, ltb, List, [], ◌∷◌, map, take, take-All,
  All, All-mono, arith, Bool-cases, inl, inr,
}
use pretrend_ai.Base.Float.{FloatOps, OrderLaws, fneg}
use pretrend_ai.Base.Sort.{sort, sort-IsSorted, IsSorted}
use pretrend_ai.Similarity.TopN.{Neighbor, scored, before, ranked, cosine_topn}

module _ (fl : FloatOps) (laws : OrderLaws fl) (a b : fl.F) (d e : ℕ) where
  abbrev pair_before : fl.F → ℕ → fl.F → ℕ → Bool
  pair_before x m y n = fl.lt x y || (fl.eq x y && ltb m n)

  pair_before_asymm : pair_before a d b e ≡ true → pair_before b e a d ≡ false
  pair_before_asymm h =
      ground (arith, laws.lt_asymm a b, laws.lt_asymm b a, laws.eq_def a b, laws.eq_def b a)

  pair_before_negtrans :
      (c : fl.F) (f : ℕ)
      → pair_before a d b e ≡ false
      → pair_before b e c f ≡ false
      → pair_before a d c f ≡ false
  pair_before_negtrans c f h k = ground (
    arith,
    laws.lt_asymm a b,
    laws.lt_asymm b c,
    laws.lt_asymm a c,
    laws.eq_def a b,
    laws.eq_def b c,
    laws.eq_def a c,
    laws.lt_negtrans a b c,
    laws.lt_negtrans c b a,
    laws.lt_negtrans a c b,
    laws.lt_negtrans b c a,
    laws.lt_negtrans b a c,
    laws.lt_negtrans c a b,
  )

-- Negation reverses the order, as it does for IEEE floats that are not NaN.
abbrev pub NegLaw : FloatOps → Type 0
NegLaw fl = (a b : fl.F) → fl.lt (fneg fl a) (fneg fl b) ≡ fl.lt b a

module _ (fl : FloatOps) (Vec : Type 0) (norm : Vec → fl.F) (dot : Vec → Vec → fl.F) where
  snd-ranked :
      (k : ℕ) (rows : List (Neighbor fl Vec norm dot))
      → map (λ r. r.1) (ranked fl Vec norm dot k rows) ≡ rows
  snd-ranked k [] = refl
  snd-ranked k (r ∷ rows) = rw (snd-ranked (suc k) rows)

  take-IsSorted :
      (n : ℕ) (rows : List (Neighbor fl Vec norm dot))
      → IsSorted (before fl Vec norm dot) rows
      → IsSorted (before fl Vec norm dot) (take n rows)
  take-IsSorted zero rows h = tt
  take-IsSorted (suc n) [] h = tt
  take-IsSorted (suc n) (r ∷ rows) h =
      (take-All (λ y. before fl Vec norm dot y r ≡ false) n rows h.0, take-IsSorted n rows h.1)

  -- What a list in falling order of score has of each two of its members, x before y: the score of y is
  -- not greater, and where the scores are equal the date of y is not earlier.
  unfoldable pub Follows : Neighbor fl Vec norm dot → Neighbor fl Vec norm dot → Type 0
  Follows x y =
      (fl.lt x.score y.score ≡ false)
      × ((fl.eq x.score y.score && ltb y.neighbor_date x.neighbor_date) ≡ false)

  abbrev pub IsFalling : List (Neighbor fl Vec norm dot) → Type 0
  IsFalling [] = Unit
  IsFalling (x ∷ xs) = All (Follows x) xs × IsFalling xs

  module _ (laws : OrderLaws fl) (neg : NegLaw fl) where
    before-Follows :
        (x y : Neighbor fl Vec norm dot) → before fl Vec norm dot y x ≡ false → Follows x y
    unfolding Follows
    before-Follows x y h = ground (
      arith,
      neg y.score x.score,
      neg x.score y.score,
      laws.eq_def x.score y.score,
      laws.eq_def (fneg fl y.score) (fneg fl x.score),
    )

    sorted-IsFalling :
        (rows : List (Neighbor fl Vec norm dot))
        → IsSorted (before fl Vec norm dot) rows
        → IsFalling rows
    sorted-IsFalling [] h = tt
    sorted-IsFalling (x ∷ xs) h = (
      All-mono (λ y. before fl Vec norm dot y x ≡ false) (Follows x) (before-Follows x) xs h.0,
      sorted-IsFalling xs h.1,
    )

    scored-IsSorted :
        (query : Vec) (cs : List (ℕ × Vec)) (query_date min_gap : ℕ)
        → IsSorted
            (before fl Vec norm dot)
            (sort (before fl Vec norm dot) (scored fl Vec norm dot query query_date min_gap cs))
    scored-IsSorted query cs query_date min_gap =
        sort-IsSorted (before fl Vec norm dot)
          (λ x y h.
            pair_before_asymm fl laws (fneg fl x.score) (fneg fl y.score) x.neighbor_date
              y.neighbor_date h)
          (λ x y z h k.
            pair_before_negtrans fl laws (fneg fl z.score) (fneg fl y.score) z.neighbor_date
              y.neighbor_date (fneg fl x.score) x.neighbor_date k h)
          (scored fl Vec norm dot query query_date min_gap cs)

    -- Under the order laws of floats, and where negation reverses their order, no neighbour has a greater
    -- score than one that stands before it, and where the scores of two are equal the one that stands
    -- before does not have the later date.
    pub topn-IsFalling :
        (query : Vec) (cs : List (ℕ × Vec)) (query_date n min_gap : ℕ)
        → IsFalling (map (λ r. r.1) (cosine_topn fl Vec norm dot query cs query_date n min_gap))
    unfolding cosine_topn
    topn-IsFalling query cs query_date n min_gap =
        elim (Bool-cases (fl.eq (norm query) (fl.lit 0 0))) [
          | inl z ↦ rw z tt
          | inr nz ↦
              rw (nz, snd-ranked 1)
                (sorted-IsFalling _
                  (take-IsSorted n _ (scored-IsSorted query cs query_date min_gap)))
        ]
