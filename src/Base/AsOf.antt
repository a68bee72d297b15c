-- ===== src/Base/AsOf.antt =====
-- Lookups of the latest rows of a dated frame at or before a day:
-- `df[df[date] <= td]`, the maximum of its dates, and the rows of that date.
use pretrend_ai.Base.{
  ℕ, ◌≡◌, refl, true, false, ◌==◌, leb, Option, none, some, List, [], ◌∷◌, ◌++◌, keep, All,
  All-mono, keep-append, keep_nothing, keep_sound, arith, max,
}
use mathlib.Core.List.{append-nil}

module _ {ℓ} {A : Type ℓ} (date : A → ℕ) where
  -- `df[date].max()`
  unfoldable pub max_date : List A → Option ℕ
  max_date [] = none
  max_date (x ∷ xs) = elim (max_date xs) [ none ↦ some (date x) | some d ↦ some (max (date x) d) ]

  abbrev pub seen : ℕ → List A → List A
  seen td xs = keep (λ x. leb (date x) td) xs

  -- the rows of the latest date at or before the day
  abbrev pub on_date : Option ℕ → List A → List A
  on_date none xs = []
  on_date (some d) xs = keep (λ x. date x == d) xs

  unfoldable pub window : ℕ → List A → List A
  unfolding max_date
  window td xs = on_date (max_date (seen td xs)) (seen td xs)

  -- `iloc[-1]`
  abbrev pub last : List A → Option A
  last [] = none
  last (x ∷ xs) = elim (last xs) [ none ↦ some x | some y ↦ some y ]

  -- the last row of that date, looked up in the whole frame
  unfoldable pub latest_row : ℕ → List A → Option A
  unfolding max_date
  latest_row td xs = last (on_date (max_date (seen td xs)) xs)

  -- Rows after the day are not seen.
  pub seen-append :
      (td : ℕ) (xs later : List A)
      → All (λ x. leb (date x) td ≡ false) later
      → seen td (xs ++ later) ≡ seen td xs
  seen-append td xs later h =
      let p = λ (x : A). leb (date x) td in
      rw (keep-append p xs later, keep_nothing p later h) (append-nil (keep p xs))

  pub window-append :
      (td : ℕ) (xs later : List A)
      → All (λ x. leb (date x) td ≡ false) later
      → window td (xs ++ later) ≡ window td xs
  unfolding window
  window-append td xs later h = rw (seen-append td xs later h) refl

  OnOrBefore : ℕ → Option ℕ → Type 0
  OnOrBefore td none = Unit
  OnOrBefore td (some d) = leb d td ≡ true

  max_date-le :
      (td : ℕ) (xs : List A) → All (λ x. leb (date x) td ≡ true) xs → OnOrBefore td (max_date xs)
  unfolding max_date OnOrBefore
  max_date-le td [] h = tt
  max_date-le td (x ∷ xs) h = go (max_date xs) (max_date-le td xs h.1)
    where
      go :
          (o : Option ℕ)
          → OnOrBefore td o
          → OnOrBefore td (elim o [ none ↦ some (date x) | some d ↦ some (max (date x) d) ])
      go none k = h.0
      go (some d) k = let e : leb (date x) td ≡ true = h.0 in ground arith

  on_date-append :
      (td : ℕ) (o : Option ℕ) (xs later : List A)
      → OnOrBefore td o
      → All (λ x. leb (date x) td ≡ false) later
      → on_date o (xs ++ later) ≡ on_date o xs
  unfolding OnOrBefore
  on_date-append td none xs later k h = refl
  on_date-append td (some d) xs later k h =
      let p = λ (x : A). date x == d in
      let none_left : keep p later ≡ [] = keep_nothing p later (
        All-mono (λ x. leb (date x) td ≡ false) (λ x. p x ≡ false) (λ x e. ground arith) later h) in
      rw (keep-append p xs later, none_left) (append-nil (keep p xs))

  pub latest_row-append :
      (td : ℕ) (xs later : List A)
      → All (λ x. leb (date x) td ≡ false) later
      → latest_row td (xs ++ later) ≡ latest_row td xs
  unfolding latest_row
  latest_row-append td xs later h =
      let d = max_date (seen td xs) in
      let before = max_date-le td (seen td xs) (keep_sound (λ x. leb (date x) td) xs) in
      rw (seen-append td xs later h, on_date-append td d xs later before h) refl
