-- ===== src/Backtest/Solvency.antt =====
-- Cash and positions stay non-negative through sales, purchases and a whole rebalancing.
use pretrend_ai.Base.{
  ℕ, Bool, true, false, ◌≡◌, Option, none, some, List, [], ◌∷◌, All, if◌then◌else◌, arith,
  Bool-cases, inl, inr, ◌||◌, map,
}
use pretrend_ai.Base.Float.{FloatOps, OrderLaws, lt_irrefl, fmin}
use pretrend_ai.Base.Dict.{get, put-All, get-All, Maybe}
use pretrend_ai.Backtest.Portfolio.{
  Position, Portfolio, buy, sell, grown, shrunk, sell_held, sell_found, or_new, market_value,
}
use pretrend_ai.Backtest.Rebalance.{
  Plan, Target, Step, sell_exits, sell_reductions, buy_targets, rebalance_to_weights, run_plan,
  exit_at, target_amounts,
}

-- x ≥ 0, in the comparisons of the floats.
abbrev pub NonNeg : (fl : FloatOps) → fl.F → Type 0
NonNeg fl x = fl.lt x (fl.lit 0 0) ≡ false

-- What IEEE arithmetic gives for finite floats: the order laws, and the sign of a sum, a product, a
-- quotient and a difference.
pub record SignLaws (fl : FloatOps) : Type 0 where
  pub order : OrderLaws fl
  pub le_def : (a b : fl.F) → fl.le a b ≡ (if fl.lt b a then false else true)
  pub zero_lit : NonNeg fl (fl.lit 0 1)
  pub dust_lit : NonNeg fl (fl.lit 1 10)
  pub add_nonneg : (a b : fl.F) → NonNeg fl a → NonNeg fl b → NonNeg fl (fl.add a b)
  pub mul_nonneg : (a b : fl.F) → NonNeg fl a → NonNeg fl b → NonNeg fl (fl.mul a b)
  pub div_nonneg : (a b : fl.F) → NonNeg fl a → fl.lt (fl.lit 0 0) b ≡ true → NonNeg fl (fl.div a b)
  pub sub_nonneg : (a b : fl.F) → fl.lt a b ≡ false → NonNeg fl (fl.sub a b)

module _ (fl : FloatOps) where
  abbrev pub Sound : Position fl → Type 0
  Sound pos = NonNeg fl pos.shares × NonNeg fl pos.avg_cost

module _ (fl : FloatOps) (S : Type 0) where
  -- The cash, and each position's shares and average cost, are non-negative.
  unfoldable pub Solvent : Portfolio fl S → Type 0
  Solvent p = NonNeg fl p.cash × All (λ (e : S × Position fl). Sound fl e.1) p.positions

module _ (fl : FloatOps) (laws : SignLaws fl) (S : Type 0) (eqb : S → S → Bool) where
  open fl use {F, lit, add, sub, mul, div, lt, le}

  positive : (x : F) → le x (lit 0 0) ≡ false → lt (lit 0 0) x ≡ true
  positive x h = ground (arith, laws.le_def x (lit 0 0))

  positive-NonNeg : (x : F) → lt (lit 0 0) x ≡ true → NonNeg fl x
  positive-NonNeg x h = laws.order.lt_asymm (lit 0 0) x h

  min_le-right : (a b : F) → lt b (fmin fl a b) ≡ false
  min_le-right a b = elim (Bool-cases (lt b a)) [
    | inl e ↦ rw e (lt_irrefl fl laws.order b)
    | inr e ↦ rw e e
  ]

  grown-Sound :
      (pos : Position fl) (amount price : F)
      → Sound fl pos
      → lt (lit 0 0) amount ≡ true
      → lt (lit 0 0) price ≡ true
      → Sound fl (grown fl S eqb pos amount price)
  grown-Sound pos amount price h a p =
      let now = add pos.shares (div amount price) in
      let now_nonneg =
        laws.add_nonneg pos.shares _ h.0
          (laws.div_nonneg amount price (positive-NonNeg amount a) p) in
      let total =
        laws.add_nonneg _ amount (laws.mul_nonneg pos.shares pos.avg_cost h.0 h.1)
          (positive-NonNeg amount a) in
      (
        now_nonneg,
        elim (Bool-cases (lt (lit 0 0) now)) [
          | inl e ↦ rw e (laws.div_nonneg _ now total e)
          | inr e ↦ rw e laws.zero_lit
        ],
      )

  shrunk-Sound :
      (pos : Position fl) (shares : F) → Sound fl pos → Sound fl (shrunk fl S eqb pos shares)
  shrunk-Sound pos shares h = (
    elim (Bool-cases (lt (sub pos.shares shares) (lit 1 10))) [
      | inl e ↦ rw e laws.zero_lit
      | inr e ↦ rw e (laws.order.lt_negtrans _ (lit 1 10) (lit 0 0) e laws.dust_lit)
    ],
    h.1,
  )

  or_new-Sound : (o : Option (Position fl)) → Maybe eqb (Sound fl) o → Sound fl (or_new fl S eqb o)
  or_new-Sound none h = (laws.zero_lit, laws.zero_lit)
  or_new-Sound (some pos) h = h

  -- Under the sign laws, a purchase of any amount leaves the cash and the positions non-negative: it spends at most the cash.
  pub buy-Solvent :
      (symbol : S) (wanted price : F) (day : ℕ) (p : Portfolio fl S)
      → Solvent fl S p
      → Solvent fl S (buy fl S eqb symbol wanted price day p).1
  unfolding buy Solvent
  buy-Solvent symbol wanted price day p h =
      let amount = fmin fl wanted p.cash in
      elim (Bool-cases (le wanted (lit 0 0) || le price (lit 0 0))) [
        | inl e ↦ rw e h
        | inr e ↦ elim (Bool-cases (le amount (lit 0 0))) [
          | inl k ↦ rw (e, k) h
          | inr k ↦
              let pos = or_new fl S eqb (get eqb symbol p.positions) in
              rw (e, k)
                (
                  laws.sub_nonneg p.cash amount (min_le-right wanted p.cash),
                  put-All eqb (Sound fl) symbol _ p.positions
                      (grown-Sound pos amount price
                        (or_new-Sound _ (get-All eqb (Sound fl) symbol p.positions h.1))
                        (positive amount k) (positive price (ground arith)))
                      h.1,
                )
        ]
      ]

  sell_held-Solvent :
      (symbol : S) (wanted price : F) (day : ℕ) (p : Portfolio fl S) (pos : Position fl)
      → Sound fl pos
      → Solvent fl S p
      → Solvent fl S (sell_held fl S eqb symbol wanted price day p pos).1
  unfolding Solvent
  sell_held-Solvent symbol wanted price day p pos s h =
      let value = market_value fl S eqb pos price in
      elim (Bool-cases (le pos.shares (lit 0 0) || le price (lit 0 0))) [
        | inl e ↦ rw e h
        | inr e ↦ elim (Bool-cases (le wanted (lit 0 0))) [
          | inl k ↦ rw (e, k) h
          | inr k ↦
              let gain : NonNeg fl (fmin fl wanted value) = elim (Bool-cases (lt value wanted)) [
                | inl m ↦ rw m (
                    laws.mul_nonneg pos.shares price s.0
                      (positive-NonNeg price (positive price (ground arith))))
                | inr m ↦ rw m (positive-NonNeg wanted (positive wanted k))
              ] in
              rw (e, k)
                (
                  laws.add_nonneg p.cash _ h.0 gain,
                  put-All eqb (Sound fl) symbol _ p.positions (shrunk-Sound pos _ s) h.1,
                )
        ]
      ]

  sell_found-Solvent :
      (o : Option (Position fl)) (symbol : S) (wanted price : F) (day : ℕ) (p : Portfolio fl S)
      → Maybe eqb (Sound fl) o
      → Solvent fl S p
      → Solvent fl S (sell_found fl S eqb symbol wanted price day p o).1
  sell_found-Solvent none symbol wanted price day p m h = h
  sell_found-Solvent (some pos) symbol wanted price day p m h =
      sell_held-Solvent symbol wanted price day p pos m h

  -- Under the sign laws, a sale of any amount leaves the cash and the positions non-negative.
  pub sell-Solvent :
      (symbol : S) (wanted price : F) (day : ℕ) (p : Portfolio fl S)
      → Solvent fl S p
      → Solvent fl S (sell fl S eqb symbol wanted price day p).1
  unfolding sell Solvent
  sell-Solvent symbol wanted price day p h =
      sell_found-Solvent (get eqb symbol p.positions) symbol wanted price day p
        (get-All eqb (Sound fl) symbol p.positions h.1) h

  choose :
      (c : Bool) (x y : Step fl S eqb)
      → Solvent fl S x.1
      → Solvent fl S y.1
      → Solvent fl S (if c then x else y).1
  choose true x y h k = h
  choose false x y h k = k

  exit_at-Solvent :
      (plan : Plan fl S eqb) (symbol : S) (o : Option F) (p : Portfolio fl S)
      → Solvent fl S p
      → Solvent fl S (exit_at fl S eqb plan symbol o p).1
  exit_at-Solvent plan symbol none p h = h
  exit_at-Solvent plan symbol (some price) p h =
      choose _ _ _ (sell-Solvent symbol _ price plan.day p h) h

  exits-Solvent :
      (plan : Plan fl S eqb) (syms : List S) (p : Portfolio fl S)
      → Solvent fl S p
      → Solvent fl S (sell_exits fl S eqb plan syms p).1
  unfolding sell_exits
  exits-Solvent plan [] p h = h
  exits-Solvent plan (symbol ∷ syms) p h =
      exits-Solvent plan syms _ (exit_at-Solvent plan symbol (get eqb symbol plan.prices) p h)

  reductions-Solvent :
      (plan : Plan fl S eqb) (targets : List (Target fl S eqb)) (p : Portfolio fl S)
      → Solvent fl S p
      → Solvent fl S (sell_reductions fl S eqb plan targets p).1
  unfolding sell_reductions
  reductions-Solvent plan [] p h = h
  reductions-Solvent plan (t ∷ ts) p h =
      reductions-Solvent plan ts _ (choose _ _ _ (sell-Solvent t.symbol _ t.price plan.day p h) h)

  buys-Solvent :
      (plan : Plan fl S eqb) (targets : List (Target fl S eqb)) (p : Portfolio fl S)
      → Solvent fl S p
      → Solvent fl S (buy_targets fl S eqb plan targets p).1
  unfolding buy_targets
  buys-Solvent plan [] p h = h
  buys-Solvent plan (t ∷ ts) p h =
      buys-Solvent plan ts _ (choose _ _ _ (buy-Solvent t.symbol _ t.price plan.day p h) h)

  run_plan-Solvent :
      (plan : Plan fl S eqb) (targets : List (Target fl S eqb)) (p : Portfolio fl S)
      → Solvent fl S p
      → Solvent fl S (run_plan fl S eqb plan targets p).1
  unfolding run_plan
  run_plan-Solvent plan targets p h =
      let exits = sell_exits fl S eqb plan (map (λ e. e.0) p.positions) p in
      buys-Solvent plan targets (sell_reductions fl S eqb plan targets exits.1).1 (
        reductions-Solvent plan targets exits.1
          (exits-Solvent plan (map (λ e. e.0) p.positions) p h))

  -- Under the sign laws, a rebalancing to any weights, prices and protected amounts leaves the cash,
  -- the shares and the average costs non-negative if they were.
  pub rebalance_to_weights-Solvent :
      (weights prices : List (S × F)) (invested : F) (day : ℕ) (min_hold : List (S × F))
      (p : Portfolio fl S)
      → Solvent fl S p
      → Solvent fl S (rebalance_to_weights fl S eqb weights prices invested day min_hold p).1
  unfolding rebalance_to_weights
  rebalance_to_weights-Solvent weights prices invested day min_hold p h =
      run_plan-Solvent _ (target_amounts fl S eqb weights prices invested) p h
