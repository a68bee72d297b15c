-- ===== src/Gold/Cascade.antt =====
-- The release calendar against its specification for a single observation.
use mathlib.Core.List.Perm
use mathlib.Core.List.{Perm, perm_middle}
use pretrend_ai.Base.{
  ℕ, ◌≡◌, refl, Bool, true, false, ◌&&◌, not, Option, none, some, List, [], ◌∷◌, ◌++◌, map, keep,
  any, All, All-mono, arith, Bool-cases, inl, inr, Option-cases, ap,
}
use pretrend_ai.Gold.Select.{ReleaseSource}
use pretrend_ai.Gold.Calendar.{
  Key, Release, Vintage, same_key, release, assumed, tier, remaining, first_date, first_vintages,
  drop_duplicates, build_release_calendar,
}

same_key-eq : (j k : Key) → same_key j k ≡ true → j ≡ k
same_key-eq (i, d) (j, e) h = ground arith

same_key_refl : (k : Key) → same_key k k ≡ true
same_key_refl (i, d) = ground arith

abbrev is_none : {A : Type 0} → Option A → Bool
is_none none = true
is_none (some a) = false

-- What the cascade promises for one observation: the event's date, else the first vintage's, else the
-- next day, with the source and the assumption flag that go with it.
abbrev pub or_else : ReleaseSource → Option ℕ → (Key → Release) → Key → Release
or_else source none other k = other k
or_else source (some d) other k = release source false k d

pub specified : List (Key × ℕ) → List Vintage → Key → Release
unfolding first_date first_vintages
specified econ vintages k =
    or_else ReleaseSource.econ_events (first_date econ k)
      (λ j. or_else ReleaseSource.fred_vintages (first_date (first_vintages vintages) j) assumed j)
      k

keep-ext {ℓ} :
    {A : Type ℓ} (p q : A → Bool) (xs : List A) → All (λ x. p x ≡ q x) xs → keep p xs ≡ keep q xs
keep-ext p q [] h = refl
keep-ext p q (x ∷ xs) h = rw (h.0, keep-ext p q xs h.1)

negated_twice : (b : Bool) → not (not b && true) ≡ b
negated_twice b = ground arith

any_self : (ks : List Key) → All (λ k. any (same_key k) ks ≡ true) ks
any_self [] = tt
any_self (k ∷ ks) = (
  rw same_key_refl,
  All-mono (λ j. any (same_key j) ks ≡ true) (λ j. any (same_key j) (k ∷ ks) ≡ true)
      (λ j h. ground arith) ks (any_self ks),
)

module _ (source : ReleaseSource) (date_of : Key → Option ℕ) where
  any-tier :
      (k : Key) (ks : List Key)
      → any (same_key k) (map (λ r. r.key) (tier source date_of ks))
        ≡ (not (is_none (date_of k)) && any (same_key k) ks)
  unfolding tier
  any-tier k [] = ground arith
  any-tier k (j ∷ ks) = elim (Bool-cases (same_key k j)) [
    | inl h ↦
        let e : date_of k ≡ date_of j = ap date_of (same_key-eq k j h) in
        ground (arith, any-tier k ks)
    | inr h ↦ ground (arith, any-tier k ks)
  ]

  -- What is left over by the matched keys is what the tier has no date for.
  remaining-tier :
      (ks : List Key) → remaining (tier source date_of ks) ks ≡ keep (λ k. is_none (date_of k)) ks
  unfolding remaining
  remaining-tier ks = keep-ext _ _ ks (
      All-mono (λ k. any (same_key k) ks ≡ true)
        (λ k.
          not (any (same_key k) (map (λ r. r.key) (tier source date_of ks))) ≡ is_none (date_of k))
        (λ k h. rw (any-tier k ks, h) (negated_twice (is_none (date_of k)))) ks (any_self ks))

  tier-perm :
      (other : Key → Release) (ks : List Key)
      → Perm
          (tier source date_of ks ++ map other (keep (λ k. is_none (date_of k)) ks))
          (map (λ k. or_else source (date_of k) other k) ks)
  unfolding tier
  tier-perm other [] = Perm.refl []
  tier-perm other (k ∷ ks) = elim (Option-cases (date_of k)) [
    | inl e ↦
        rw (e, tier)
          (Perm.trans (perm_middle (tier source date_of ks) _)
            (Perm.cons (other k) (tier-perm other ks)))
    | inr (d, e) ↦ rw (e, tier) (Perm.cons (release source false k d) (tier-perm other ks))
  ]

-- The calendar has exactly one row for each distinct observation of the Silver table, and that row is
-- the one that the specification gives the observation: nothing is lost or doubled by the tiers.
pub calendar-specified :
    (silver : List Key) (econ : List (Key × ℕ)) (vintages : List Vintage)
    → Perm
        (build_release_calendar silver econ vintages)
        (map (specified econ vintages) (drop_duplicates [] silver))
unfolding build_release_calendar specified
calendar-specified silver econ vintages =
    let cs = drop_duplicates [] silver in
    let econ_date = first_date econ in
    let vintage_date = first_date (first_vintages vintages) in
    let rest = keep (λ k. is_none (econ_date k)) cs in
    let second = λ (j : Key). or_else ReleaseSource.fred_vintages (vintage_date j) assumed j in
    rw
      (
        remaining-tier ReleaseSource.econ_events econ_date cs,
        remaining-tier ReleaseSource.fred_vintages vintage_date rest,
      )
      (Perm.trans
        (Perm.append_left (tier ReleaseSource.econ_events econ_date cs)
          (tier-perm ReleaseSource.fred_vintages vintage_date assumed rest))
        (tier-perm ReleaseSource.econ_events econ_date second cs))

-- The distinct observations are pairwise different, and none of them is among those seen before.
drop_duplicates-new :
    (seen ks : List Key) → All (λ k. any (same_key k) seen ≡ false) (drop_duplicates seen ks)
unfolding drop_duplicates
drop_duplicates-new seen [] = tt
drop_duplicates-new seen (k ∷ ks) = elim (Bool-cases (any (same_key k) seen)) [
  | inl h ↦ rw h (drop_duplicates-new seen ks)
  | inr h ↦ rw h (
    h,
    All-mono (λ j. any (same_key j) (k ∷ seen) ≡ false) (λ j. any (same_key j) seen ≡ false)
        (λ j e. ground arith) _ (drop_duplicates-new (k ∷ seen) ks),
  )
]
