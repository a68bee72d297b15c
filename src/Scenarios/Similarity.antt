-- ===== src/Scenarios/Similarity.antt =====
-- The neighbours of a concrete day, with vectors of one component.
use pretrend_ai.Base.{ℕ, ◌≤◌, ◌≡◌, List, [], ◌∷◌, map, length, All, keep, not, leb, ◌&&◌}
use pretrend_ai.Base.Float.{decimal, decimal-OrderLaws}
use pretrend_ai.Base.Int.{◌+ℤ◌, ◌-ℤ◌, int_laws}
use pretrend_ai.Similarity.TopN.{Stored, cosine_topn, build_similarity}
use pretrend_ai.Similarity.Ranking.{IsFar, count_from, topn_gap_and_ranks}
use pretrend_ai.Similarity.Order.{NegLaw, IsFalling, topn-IsFalling}
use pretrend_ai.Similarity.Replace.{rebuild_replaces, build_similarity_outside}

abbrev one : decimal.F
one = decimal.lit 1 0

abbrev half : decimal.F
half = decimal.lit 5 1

abbrev Vec : Type 0
Vec = decimal.F

abbrev norm : Vec → decimal.F
norm v = one

abbrev dot : Vec → Vec → decimal.F
dot u v = v

abbrev candidates : List (ℕ × Vec)
candidates = (10, half) ∷ (20, one) ∷ (30, one) ∷ (90, one) ∷ []

topn_gap_and_ranks_example :
    let out = cosine_topn decimal Vec norm dot one candidates 100 2 30 in
    All (λ r. IsFar decimal Vec norm dot 100 30 r.1) out
    × (length out ≤ 2)
    × (map (λ r. r.0) out ≡ count_from 1 (length out))
topn_gap_and_ranks_example = topn_gap_and_ranks decimal Vec norm dot one candidates 100 2 30

decimal-NegLaw : NegLaw decimal
unfolding ◌+ℤ◌ ◌-ℤ◌
decimal-NegLaw a b = grind int_laws

topn-IsFalling_example :
    IsFalling decimal Vec norm dot
      (map (λ r. r.1) (cosine_topn decimal Vec norm dot one candidates 100 2 30))
topn-IsFalling_example =
    topn-IsFalling decimal Vec norm dot decimal-OrderLaws decimal-NegLaw one candidates 100 2 30

abbrev table : List (Stored decimal Vec norm dot)
table = (5, 1, record { neighbor_date = 1; score = one; gap_days = 4 }, 700) ∷ []

rebuild_replaces_example :
    (build_similarity decimal Vec norm dot 702 80 95
      (20 ∷ 90 ∷ [])
      candidates
      (build_similarity decimal Vec norm dot 701 80 95 (20 ∷ 90 ∷ []) [] table).0).0
    ≡ (build_similarity decimal Vec norm dot 702 80 95 (20 ∷ 90 ∷ []) candidates table).0
rebuild_replaces_example =
    rebuild_replaces decimal Vec norm dot 701 702 80 95 (20 ∷ 90 ∷ []) [] candidates table

build_similarity_outside_example :
    keep
      (λ (r : Stored decimal Vec norm dot). not (leb 80 r.0 && leb r.0 95))
      (build_similarity decimal Vec norm dot 701 80 95 (20 ∷ 90 ∷ []) candidates table).0
    ≡ keep (λ (r : Stored decimal Vec norm dot). not (leb 80 r.0 && leb r.0 95)) table
build_similarity_outside_example =
    build_similarity_outside decimal Vec norm dot 701 80 95 (20 ∷ 90 ∷ []) candidates table
