-- ===== src/Similarity/Replace.antt =====
-- Rebuilding the neighbours of a date range.
use mathlib.Core.List.{append-nil}
use pretrend_ai.Base.{
  ℕ, ◌≡◌, refl, Bool, true, false, not, Option, none, some, List, [], ◌∷◌, map, keep, All, All-mono,
  append-All, keep-append, keep_passing, keep_nothing, keep_sound, keep_comm, leb, ◌&&◌, arith, ap,
}
use pretrend_ai.Base.Float.{FloatOps}
use pretrend_ai.Similarity.TopN.{
  Neighbor, Row, Stored, stamped, member, vector_at, rows_of, cosine_topn, build_rows_for_view,
  replace_rows, build_similarity,
}

module _ (fl : FloatOps) (Vec : Type 0) (norm : Vec → fl.F) (dot : Vec → Vec → fl.F) where
  abbrev Of : List ℕ → Row fl Vec norm dot → Type 0
  Of ds r = member fl Vec norm dot r.0 ds ≡ true

  abbrev OfStored : List ℕ → Stored fl Vec norm dot → Type 0
  OfStored ds r = member fl Vec norm dot r.0 ds ≡ true

  map-Of :
      (d : ℕ) (ds : List ℕ) (out : List (ℕ × Neighbor fl Vec norm dot))
      → All (Of (d ∷ ds)) (map (λ r. (d, r.0, r.1)) out)
  map-Of d ds [] = tt
  map-Of d ds (r ∷ out) = (ground arith, map-Of d ds out)

  rows_of-Of :
      (d : ℕ) (ds : List ℕ) (v : Option Vec) (features : List (ℕ × Vec))
      → All (Of (d ∷ ds)) (rows_of fl Vec norm dot d v features)
  rows_of-Of d ds none features = tt
  rows_of-Of d ds (some v) features = map-Of d ds (cosine_topn fl Vec norm dot v features d 100 30)

  build_rows-Of :
      (ds : List ℕ) (features : List (ℕ × Vec))
      → All (Of ds) (build_rows_for_view fl Vec norm dot ds features)
  unfolding build_rows_for_view
  build_rows-Of [] features = tt
  build_rows-Of (d ∷ ds) features =
      append-All (Of (d ∷ ds))
        (rows_of fl Vec norm dot d (vector_at fl Vec norm dot d features) features) _
        (rows_of-Of d ds (vector_at fl Vec norm dot d features) features)
        (All-mono (Of ds) (Of (d ∷ ds)) (λ r h. ground arith) _ (build_rows-Of ds features))

  stamped-Of :
      (t : ℕ) (ds : List ℕ) (rows : List (Row fl Vec norm dot))
      → All (Of ds) rows
      → All (OfStored ds) (map (stamped fl Vec norm dot t) rows)
  stamped-Of t ds [] h = tt
  stamped-Of t ds (r ∷ rows) h = (h.0, stamped-Of t ds rows h.1)

  -- A second replacement of the same dates leaves nothing of the first.
  replace_rows_twice :
      (t u : ℕ) (ds : List ℕ) (old new : List (Row fl Vec norm dot))
      (table : List (Stored fl Vec norm dot))
      → All (Of ds) old
      → replace_rows fl Vec norm dot u ds new (replace_rows fl Vec norm dot t ds old table)
        ≡ replace_rows fl Vec norm dot u ds new table
  unfolding replace_rows
  replace_rows_twice t u [] old new table h = refl
  replace_rows_twice t u (d ∷ ds) old new table h =
      let other = λ (r : Stored fl Vec norm dot). not (member fl Vec norm dot r.0 (d ∷ ds)) in
      let written = map (stamped fl Vec norm dot t) old in
      let gone : keep other written ≡ [] = keep_nothing other written (
        All-mono (OfStored (d ∷ ds)) (λ r. other r ≡ false) (λ r k. ap not k) written
          (stamped-Of t (d ∷ ds) old h)) in
      let kept : keep other (keep other table) ≡ keep other table =
        keep_passing other (keep other table) (keep_sound other table) in
      rw (keep-append other (keep other table) written, gone, kept, append-nil (keep other table))

  -- A build of a range of the trade dates leaves nothing of an earlier build of the same range, with any
  -- features and at any time: the table is the one that the later build alone makes, with its build time.
  pub rebuild_replaces :
      (t u lo hi : ℕ) (dates : List ℕ) (earlier features : List (ℕ × Vec))
      (table : List (Stored fl Vec norm dot))
      → (build_similarity fl Vec norm dot u lo hi dates features
          (build_similarity fl Vec norm dot t lo hi dates earlier table).0).0
        ≡ (build_similarity fl Vec norm dot u lo hi dates features table).0
  unfolding build_similarity
  rebuild_replaces t u lo hi dates earlier features table =
      let ds = keep (λ d. leb lo d && leb d hi) dates in
      replace_rows_twice t u ds (build_rows_for_view fl Vec norm dot ds earlier)
        (build_rows_for_view fl Vec norm dot ds features) table (build_rows-Of ds earlier)

  outside-member :
      (lo hi : ℕ) (ds : List ℕ) (d : ℕ)
      → (leb lo d && leb d hi) ≡ false
      → member fl Vec norm dot d (keep (λ e. leb lo e && leb e hi) ds) ≡ false
  outside-member lo hi [] d h = refl
  outside-member lo hi (e ∷ ds) d h = ground (arith, outside-member lo hi ds d h)

  replace_rows_outside :
      (outside : Stored fl Vec norm dot → Bool) (t : ℕ) (ds : List ℕ)
      (rows : List (Row fl Vec norm dot)) (table : List (Stored fl Vec norm dot))
      → ((r : Stored fl Vec norm dot) → outside r ≡ true → member fl Vec norm dot r.0 ds ≡ false)
      → All (Of ds) rows
      → keep outside (replace_rows fl Vec norm dot t ds rows table) ≡ keep outside table
  unfolding replace_rows
  replace_rows_outside outside t [] rows table apart h = refl
  replace_rows_outside outside t (d ∷ ds) rows table apart h =
      let written = map (stamped fl Vec norm dot t) rows in
      let other = λ (r : Stored fl Vec norm dot). not (member fl Vec norm dot r.0 (d ∷ ds)) in
      let gone : keep outside written ≡ [] = keep_nothing outside written (
        All-mono (OfStored (d ∷ ds)) (λ r. outside r ≡ false) (λ r k. ground (arith, apart r))
          written (stamped-Of t (d ∷ ds) rows h)) in
      let kept : keep other (keep outside table) ≡ keep outside table =
        keep_passing other (keep outside table) (
          All-mono (λ r. outside r ≡ true) (λ r. other r ≡ true) (λ r k. ap not (apart r k)) _
            (keep_sound outside table)) in
      rw
        (
          keep-append outside (keep other table) written,
          gone,
          append-nil,
          keep_comm outside other table,
        )
        kept

  -- A build leaves the rows of every query date outside its range as they were, in their order and with
  -- their build times.
  pub build_similarity_outside :
      (t lo hi : ℕ) (dates : List ℕ) (features : List (ℕ × Vec))
      (table : List (Stored fl Vec norm dot))
      → keep
          (λ (r : Stored fl Vec norm dot). not (leb lo r.0 && leb r.0 hi))
          (build_similarity fl Vec norm dot t lo hi dates features table).0
        ≡ keep (λ (r : Stored fl Vec norm dot). not (leb lo r.0 && leb r.0 hi)) table
  unfolding build_similarity
  build_similarity_outside t lo hi dates features table =
      let ds = keep (λ d. leb lo d && leb d hi) dates in
      replace_rows_outside (λ (r : Stored fl Vec norm dot). not (leb lo r.0 && leb r.0 hi)) t ds
        (build_rows_for_view fl Vec norm dot ds features) table
        (λ r k. outside-member lo hi dates r.0 (ground arith)) (build_rows-Of ds features)
