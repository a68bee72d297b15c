-- ===== src/Gold/Latest.antt =====
-- Which row of the join a feature reads: the latest release of its indicator before the trade date.
use mathlib.Core.List.{Memᴰ}
use pretrend_ai.Base.{
  ℕ, ◌≤◌, ◌≡◌, refl, Bool, true, false, ◌&&◌, ◌==◌, ltb, Option, none, some, List, [], ◌∷◌, keep,
  keep-All, keep_sound, All, All-mono, arith, if◌then◌else◌,
}
use pretrend_ai.Base.Float.{FloatOps}
use pretrend_ai.Base.Sort.{sort-All, sort-All_back}
use pretrend_ai.Gold.Select.{
  Merged, Feature, Library, latest_from, latest, compute, pit_rows, select_and_compute,
}
use pretrend_ai.Gold.PointInTime.{latest_from-All, latest_from-le, latest_from_max}

module _ {A : Type 0} where
  own_members : (xs : List A) → All (λ x. Memᴰ x xs) xs
  own_members [] = tt
  own_members (x ∷ xs) = (
    Memᴰ.head refl,
    All-mono (λ y. Memᴰ y xs) (λ y. Memᴰ y (x ∷ xs)) (λ y m. Memᴰ.tail m) xs (own_members xs),
  )

  both : (B C : A → Type 0) (xs : List A) → All B xs → All C xs → All (λ x. B x × C x) xs
  both B C [] h k = tt
  both B C (x ∷ xs) h k = ((h.0, k.0), both B C xs h.1 k.1)

  -- What no member that passes a filter has, no member has while it passes the filter.
  keep_back :
      (p t : A → Bool) (xs : List A)
      → All (λ x. t x ≡ false) (keep p xs)
      → All (λ x. (p x && t x) ≡ false) xs
  keep_back p t [] h = tt
  keep_back p t (x ∷ xs) h =
      elim (p x)
          as (λ b.
            All (λ y. t y ≡ false) (if b then x ∷ keep p xs else keep p xs)
            → ((b && t x) ≡ false) × All (λ y. (p y && t y) ≡ false) xs) [
              | true ↦ λ k. (k.0, keep_back p t xs k.1)
              | false ↦ λ k. (refl, keep_back p t xs k)
            ]
        h

module _ (fl : FloatOps) where
  -- A row of the indicator, released before the day.
  abbrev pub usable : ℕ → ℕ → Merged fl → Bool
  usable ind td r = r.indicator_id == ind && ltb r.release_date td

  -- The feature of the indicator on the day has the cells of the row.
  abbrev pub ReadFrom : ℕ → ℕ → Feature fl → Merged fl → Type 0
  ReadFrom ind td f r =
      (f.indicator_id ≡ ind)
      × (f.trade_date ≡ td)
      × (f.selected_observation_date ≡ r.observation_date)
      × (f.selected_value ≡ r.value)
      × (f.selected_release_date ≡ r.release_date)
      × (f.release_source ≡ r.release_source)
      × (f.is_assumption_based ≡ r.is_assumption_based)

  -- Without a feature no row is usable; a feature reads a usable row of the join, and no usable row has a
  -- later release.
  unfoldable pub IsNewest : List (Merged fl) → ℕ → ℕ → Option (Feature fl) → Type 0
  IsNewest merged ind td none = All (λ (r : Merged fl). usable ind td r ≡ false) merged
  IsNewest merged ind td (some f) =
      ((r : Merged fl) × Memᴰ r merged × (usable ind td r ≡ true) × ReadFrom ind td f r)
      × All
          (λ (r : Merged fl).
            (usable ind td r && ltb f.selected_release_date r.release_date) ≡ false)
          merged

  module _ (merged : List (Merged fl)) (ind td : ℕ) where
    Known : Merged fl → Type 0
    Known r = Memᴰ r merged × (usable ind td r ≡ true)

    pit_rows-Known : All Known (pit_rows fl merged ind td)
    unfolding pit_rows Known
    pit_rows-Known =
        let ours = λ (r : Merged fl). r.indicator_id == ind in
        let released = λ (r : Merged fl). ltb r.release_date td in
        let Member = λ (r : Merged fl). Memᴰ r merged in
        let Ours = λ (r : Merged fl). ours r ≡ true in
        let MemberOurs = λ (r : Merged fl). Member r × Ours r in
        let Released = λ (r : Merged fl). released r ≡ true in
        let found = keep ours merged in
        let rows = keep released found in
        let members =
          both Member Ours found (keep-All Member ours merged (own_members merged))
            (keep_sound ours merged) in
        sort-All (λ (a b : Merged fl). ltb a.observation_date b.observation_date) Known rows
          (All-mono (λ (r : Merged fl). MemberOurs r × Released r) Known
            (λ r h. (h.0.0, ground (arith, h.0.1, h.1))) rows
            (both MemberOurs Released rows (keep-All MemberOurs released found members)
              (keep_sound released found)))

    -- What no row at hand has, no usable row of the join has.
    pit_rows-none :
        (t : Merged fl → Bool)
        → All (λ r. t r ≡ false) (pit_rows fl merged ind td)
        → All (λ r. (usable ind td r && t r) ≡ false) merged
    unfolding pit_rows
    pit_rows-none t h =
        let ours = λ (r : Merged fl). r.indicator_id == ind in
        let released = λ (r : Merged fl). ltb r.release_date td in
        All-mono (λ r. (ours r && (released r && t r)) ≡ false)
          (λ r. (usable ind td r && t r) ≡ false) (λ r k. ground arith) merged
          (keep_back ours (λ r. released r && t r) merged
            (keep_back released t (keep ours merged) (
              sort-All_back (λ (a b : Merged fl). ltb a.observation_date b.observation_date)
                (λ r. t r ≡ false) (keep released (keep ours merged)) h)))

    module _ (lib : Library fl) (is_daily : ℕ → Bool) where
      compute-IsNewest :
          (pit : List (Merged fl))
          → All Known pit
          → ((t : Merged fl → Bool)
              → All (λ r. t r ≡ false) pit
              → All (λ r. (usable ind td r && t r) ≡ false) merged)
          → IsNewest merged ind td (compute fl lib is_daily ind td pit)
      unfolding latest IsNewest Known
      compute-IsNewest [] known none_left =
          All-mono (λ r. (usable ind td r && true) ≡ false) (λ r. usable ind td r ≡ false)
            (λ r k. ground arith) merged (none_left (λ r. true) tt)
      compute-IsNewest (r ∷ rows) known none_left =
          let sel = (latest_from fl r 0 1 rows).0 in
          let k = latest_from-All fl Known r 0 1 rows known.0 known.1 in
          (
            (sel, k.0, k.1, (refl, refl, refl, refl, refl, refl, refl)),
            none_left (λ x. ltb sel.release_date x.release_date)
                (All-mono (λ (x : Merged fl). x.release_date ≤ sel.release_date)
                  (λ x. ltb sel.release_date x.release_date ≡ false) (λ x l. ground arith)
                  (r ∷ rows) (latest_from-le fl r 0 1 rows, latest_from_max fl r 0 1 rows)),
          )

      -- Where a row of the indicator was released before the trade date there is a feature, and it has the
      -- cells of such a row of the join, than which no such row has a later release. Without such a row
      -- there is no feature.
      pub selects_latest_release :
          IsNewest merged ind td (select_and_compute fl lib is_daily merged ind td)
      unfolding select_and_compute
      selects_latest_release =
          compute-IsNewest (pit_rows fl merged ind td) pit_rows-Known pit_rows-none
