-- ===== src/Base/SortedDates.antt =====
-- Sorted lists of days and their part up to a day.
use pretrend_ai.Base.{
  ℕ, ◌≡◌, refl, Bool, true, false, not, ltb, leb, List, [], ◌∷◌, ◌++◌, keep, All, All-mono,
  keep_nothing, keep_passing, if◌then◌else◌, Bool-cases, inl, inr, arith, ap,
}
use pretrend_ai.Base.Sort.{sort, insert, IsSorted, sort-IsSorted}

module _ (t : ℕ) where
  abbrev pub upto : ℕ → Bool
  upto d = leb d t

  abbrev pub after : ℕ → Bool
  after d = not (leb d t)

  none_upto :
      (x : ℕ) (xs : List ℕ)
      → upto x ≡ false
      → All (λ y. ltb y x ≡ false) xs
      → All (λ y. upto y ≡ false) xs
  none_upto x xs e h =
      All-mono (λ y. ltb y x ≡ false) (λ y. upto y ≡ false) (λ y k. ground arith) xs h

  keep-insert :
      (x : ℕ) (ys : List ℕ)
      → IsSorted ltb ys
      → keep upto (insert ltb x ys) ≡ (if upto x then insert ltb x (keep upto ys) else keep upto ys)
  unfolding insert
  keep-insert x [] h = ground arith
  keep-insert x (y ∷ ys) h = elim (Bool-cases (ltb y x)) [
    | inl e ↦ ground (arith, keep-insert x ys h.1)
    | inr e ↦ elim (Bool-cases (upto y)) [
      | inl k ↦ ground arith
      | inr k ↦
          let none_left : keep upto ys ≡ [] = keep_nothing upto ys (none_upto y ys k h.0) in
          ground arith
    ]
  ]

  sorted : (xs : List ℕ) → IsSorted ltb (sort ltb xs)
  sorted xs = sort-IsSorted ltb (λ x y e. ground arith) (λ x y z e k. ground arith) xs

  -- Sorting and cutting off after a day commute.
  pub keep-sort : (xs : List ℕ) → keep upto (sort ltb xs) ≡ sort ltb (keep upto xs)
  unfolding sort
  keep-sort [] = refl
  keep-sort (x ∷ xs) = elim (Bool-cases (upto x)) [
    | inl e ↦ rw (keep-insert x (sort ltb xs) (sorted xs), e, keep-sort xs)
    | inr e ↦ rw (keep-insert x (sort ltb xs) (sorted xs), e, keep-sort xs)
  ]

  split : (xs : List ℕ) → IsSorted ltb xs → xs ≡ keep upto xs ++ keep after xs
  split [] h = refl
  split (x ∷ xs) h = elim (Bool-cases (upto x)) [
    | inl e ↦ rw e (ap (λ l. x ∷ l) (split xs h.1))
    | inr e ↦
        let early = none_upto x xs e h.0 in
        rw (
          e,
          keep_nothing upto xs early,
          keep_passing after xs
              (All-mono (λ y. upto y ≡ false) (λ y. after y ≡ true) (λ y k. ap not k) xs early),
        )
  ]

  -- A sorted list is its part up to the day and then its part after it.
  pub split-sorted :
      (xs : List ℕ) → sort ltb xs ≡ keep upto (sort ltb xs) ++ keep after (sort ltb xs)
  split-sorted xs = split (sort ltb xs) (sorted xs)
