-- ===== src/Base/Dict.antt =====
-- Python's `dict` as an association list in insertion order, over a Boolean equality of keys.
use mathlib.Core.Bool.{Bool, true, false}
use mathlib.Core.Option.{Option, none, some}
use mathlib.Core.List.{List, [], ◌∷◌}
use pretrend_ai.Base.Tests.{if◌then◌else◌}
use pretrend_ai.Base.Lists.{All}

module _ {ℓ κ} {K : Type ℓ} {V : Type κ} (eqb : K → K → Bool) where
  -- `d.get(k)`
  abbrev pub get : K → List (K × V) → Option V
  get k [] = none
  get k ((j, v) ∷ d) = if eqb j k then some v else get k d

  -- `d[k] = v`: in place when the key is there, else at the end
  abbrev pub put : K → V → List (K × V) → List (K × V)
  put k v [] = (k, v) ∷ []
  put k v ((j, w) ∷ d) = if eqb j k then (j, v) ∷ d else (j, w) ∷ put k v d

  -- `k in d`
  abbrev pub has : K → List (K × V) → Bool
  has k d = elim (get k d) [ none ↦ false | some _ ↦ true ]

  module _ {μ} (P : V → Type μ) where
    pub put-All :
        (k : K) (v : V) (d : List (K × V))
        → P v
        → All (λ (e : K × V). P e.1) d
        → All (λ (e : K × V). P e.1) (put k v d)
    put-All k v [] p h = (p, tt)
    put-All k v ((j, w) ∷ d) p h =
        elim (eqb j k)
          as (λ b. All (λ (e : K × V). P e.1) (if b then (j, v) ∷ d else (j, w) ∷ put k v d)) [
            | true ↦ (p, h.1)
            | false ↦ (h.0, put-All k v d p h.1)
          ]

    -- What holds of every value holds of one that is looked up.
    abbrev pub Maybe : Option V → Type μ
    Maybe none = Unit
    Maybe (some v) = P v

    pub get-All : (k : K) (d : List (K × V)) → All (λ (e : K × V). P e.1) d → Maybe (get k d)
    get-All k [] h = tt
    get-All k ((j, w) ∷ d) h = elim (eqb j k) as (λ b. Maybe (if b then some w else get k d)) [
      | true ↦ h.0
      | false ↦ get-All k d h.1
    ]
