-- ===== src/Base/Counter.antt =====
-- `collections.Counter` over a list: counts, and the most common member. Among members of one count
-- `most_common` gives the one that the list shows first.
use pretrend_ai.Base.{
  ℕ, suc, Bool, ◌≤◌, List, [], ◌∷◌, Option, none, some, ltb, if◌then◌else◌, arith, All,
}

module _ {ℓ} {A : Type ℓ} (eq : A → A → Bool) where
  unfoldable pub count : A → List A → ℕ
  count a [] = 0
  count a (x ∷ xs) = let rest = count a xs in if eq x a then suc rest else rest

  -- the best member so far, against the rest of the list
  unfoldable pub best : List A → A → List A → A
  best votes cur [] = cur
  best votes cur (x ∷ xs) = best votes (if ltb (count cur votes) (count x votes) then x else cur) xs

  -- `Counter(votes).most_common(1)[0][0]`
  unfoldable pub most_common : List A → Option A
  unfolding best count
  most_common [] = none
  most_common (x ∷ xs) = some (best (x ∷ xs) x xs)

  best-le :
      (votes : List A) (cur : A) (xs : List A) → count cur votes ≤ count (best votes cur xs) votes
  unfolding best
  best-le votes cur [] = omega arith
  best-le votes cur (x ∷ xs) =
      ground (arith, best-le votes (if ltb (count cur votes) (count x votes) then x else cur) xs)

  -- No member of the list has more votes than the one that is chosen.
  pub best_max :
      (votes : List A) (cur : A) (xs : List A)
      → All (λ y. count y votes ≤ count (best votes cur xs) votes) xs
  unfolding best
  best_max votes cur [] = tt
  best_max votes cur (x ∷ xs) =
      let next = if ltb (count cur votes) (count x votes) then x else cur in
      (ground (arith, best-le votes next xs), best_max votes next xs)
