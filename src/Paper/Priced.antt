-- ===== src/Paper/Priced.antt =====
-- The rebalancing of the paper account fails only on a target without a price.
use pretrend_ai.Base.{
  ℕ, Bool, true, false, ◌≡◌, refl, ◌&&◌, not, Option, none, some, List, [], ◌∷◌, All, if◌then◌else◌,
  Bool-cases, inl, inr, arith,
}
use pretrend_ai.Base.Float.{FloatOps}
use pretrend_ai.Base.Dict.{get, has}
use pretrend_ai.Backtest.Portfolio.{Portfolio}
use pretrend_ai.Paper.Rebalance.{
  Turn, Outcome, Terms, Holding, skip, run_loop, and_then, is_locked, sell_above_cent, exit_turn,
  reduce_at, reduce_turn, buy_at, buy_turn, run_passes, sell_passes, buy_pass, scaled, terms_of,
  holdings, rebalance_to_target,
}

module _ (fl : FloatOps) (S : Type 0) where
  unfoldable Fine : Turn fl S → Type 0
  Fine turn = turn.failed ≡ false

  choose : (b : Bool) (x y : Turn fl S) → Fine x → Fine y → Fine (if b then x else y)
  choose true x y h k = h
  choose false x y h k = k

  skip-Fine : (p : Portfolio fl S) → Fine (skip fl S p)
  unfolding Fine
  skip-Fine p = refl

  run_loop-Fine :
      {T : Type 0} (Q : T → Type 0) (body : T → Portfolio fl S → Turn fl S)
      → ((t : T) (q : Portfolio fl S) → Q t → Fine (body t q))
      → (ts : List T) (p : Portfolio fl S) → All Q ts
      → (run_loop fl S body ts p).failed ≡ false
  unfolding run_loop Fine
  run_loop-Fine Q body f [] p h = refl
  run_loop-Fine Q body f (t ∷ ts) p h =
      rw (f t p h.0) (run_loop-Fine Q body f ts (body t p).book h.1)

  and_then-fine :
      (first : Outcome fl S) (next : Portfolio fl S → Outcome fl S)
      → first.failed ≡ false
      → (next first.book).failed ≡ false
      → (and_then fl S first next).failed ≡ false
  unfolding and_then
  and_then-fine first next h k = rw h k

module _ (fl : FloatOps) (S : Type 0) (eqb : S → S → Bool) where
  open fl use {F, lit, le, lt, add, sub, mul}

  -- The symbol of the weight has a price.
  abbrev pub is_priced : List (S × F) → S × F → Bool
  is_priced prices (sym, w) = has eqb sym prices

  module _ (terms : Terms fl S) where
    cent-Fine :
        (sym : S) (amount price : F) (p : Portfolio fl S)
        → Fine fl S (sell_above_cent fl S eqb terms sym amount price p)
    unfolding Fine
    cent-Fine sym amount price p = elim (Bool-cases (le amount (lit 1 2))) [
      | inl e ↦ rw e refl
      | inr e ↦ rw e refl
    ]

    exit-Fine :
        (h : Holding fl S eqb) (p : Portfolio fl S) → Fine fl S (exit_turn fl S eqb terms h p)
    unfolding exit_turn
    exit-Fine h p =
        choose fl S
          (not (has eqb h.symbol terms.targets)
            && (not (is_locked fl S eqb terms h.symbol) && lt (lit 0 0) h.amount))
          _ _ (cent-Fine h.symbol _ h.price p) (skip-Fine fl S p)

    reduce_at-Fine :
        (sym : S) (target cur : F) (price : Option F) (p : Portfolio fl S)
        → elim price [ none ↦ false | some _ ↦ true ] ≡ true
        → Fine fl S (reduce_at fl S eqb terms sym target cur price p)
    reduce_at-Fine sym target cur none p h = ground arith
    reduce_at-Fine sym target cur (some price) p h = cent-Fine sym _ price p

    reduce-Fine :
        (t : S × F) (p : Portfolio fl S)
        → is_priced terms.prices t ≡ true
        → Fine fl S (reduce_turn fl S eqb terms t p)
    unfolding reduce_turn
    reduce-Fine (sym, target) p h =
        choose fl S (is_locked fl S eqb terms sym) _ _ (skip-Fine fl S p) (
          choose fl S _ _ _ (reduce_at-Fine sym target _ (get eqb sym terms.prices) p h)
            (skip-Fine fl S p))

    buy_at-Fine :
        (sym : S) (amount : F) (price : Option F) (p : Portfolio fl S)
        → elim price [ none ↦ false | some _ ↦ true ] ≡ true
        → Fine fl S (buy_at fl S eqb terms sym amount price p)
    unfolding Fine
    buy_at-Fine sym amount none p h = ground arith
    buy_at-Fine sym amount (some price) p h = refl

    buy_turn-Fine :
        (t : S × F) (p : Portfolio fl S)
        → is_priced terms.prices t ≡ true
        → Fine fl S (buy_turn fl S eqb terms t p)
    unfolding buy_turn
    buy_turn-Fine (sym, target) p h =
        choose fl S _ _ _ (buy_at-Fine sym _ (get eqb sym terms.prices) p h) (skip-Fine fl S p)

    every : (hs : List (Holding fl S eqb)) → All (λ h. true ≡ true) hs
    every [] = tt
    every (h ∷ hs) = (refl, every hs)

    AllPriced : Type 0
    AllPriced = All (λ t. is_priced terms.prices t ≡ true) terms.targets

    sell_passes-fine :
        (b : Bool) (held : List (Holding fl S eqb)) (p : Portfolio fl S)
        → AllPriced
        → (sell_passes fl S eqb terms held b p).failed ≡ false
    unfolding sell_passes AllPriced
    sell_passes-fine false held p h = refl
    sell_passes-fine true held p h =
        let exits = run_loop fl S (exit_turn fl S eqb terms) held p in
        and_then-fine fl S exits (run_loop fl S (reduce_turn fl S eqb terms) terms.targets)
          (run_loop-Fine fl S (λ h. true ≡ true) (exit_turn fl S eqb terms) (λ t q u. exit-Fine t q)
            held p (every held))
          (run_loop-Fine fl S (λ t. is_priced terms.prices t ≡ true) (reduce_turn fl S eqb terms)
            reduce-Fine terms.targets exits.book h)

    buy_pass-fine :
        (b : Bool) (q : Portfolio fl S) → AllPriced → (buy_pass fl S eqb terms b q).failed ≡ false
    unfolding buy_pass AllPriced
    buy_pass-fine false q h = refl
    buy_pass-fine true q h =
        run_loop-Fine fl S (λ t. is_priced terms.prices t ≡ true) (buy_turn fl S eqb terms)
          buy_turn-Fine terms.targets q h

    run_passes-fine :
        (held : List (Holding fl S eqb)) (allow_sell allow_buy : Bool) (p : Portfolio fl S)
        → AllPriced
        → (run_passes fl S eqb terms held allow_sell allow_buy p).failed ≡ false
    unfolding run_passes
    run_passes-fine held allow_sell allow_buy p h =
        let sells = sell_passes fl S eqb terms held allow_sell p in
        and_then-fine fl S sells (buy_pass fl S eqb terms allow_buy)
          (sell_passes-fine allow_sell held p h) (buy_pass-fine allow_buy sells.book h)

  scaled-priced :
      (prices : List (S × F)) (invested : F) (weights : List (S × F))
      → All (λ t. is_priced prices t ≡ true) weights
      → All (λ t. is_priced prices t ≡ true) (scaled fl S eqb invested weights)
  scaled-priced prices invested [] h = tt
  scaled-priced prices invested ((sym, w) ∷ ws) h = (h.0, scaled-priced prices invested ws h.1)

  pub rebalance-fine :
      (prices : List (S × F)) (ratio : F) (weights : List (S × F)) (day : ℕ)
      (allow_sell allow_buy : Bool) (locked : List S) (is_schd : S → Bool) (least nav : F)
      (p : Portfolio fl S)
      → All (λ t. is_priced prices t ≡ true) weights
      → let out =
          rebalance_to_target fl S eqb prices ratio weights day allow_sell allow_buy locked is_schd
            least nav p in
        out.failed ≡ false
  unfolding rebalance_to_target AllPriced
  rebalance-fine prices ratio weights day allow_sell allow_buy locked is_schd least nav p h =
      run_passes-fine (terms_of fl S eqb prices ratio weights day locked is_schd least nav p)
        (holdings fl S eqb p.positions prices) allow_sell allow_buy p
        (scaled-priced prices _ weights h)
