-- ===== src/Paper/Trades.antt =====
-- What holds of every trade that the rebalancing of the paper account may make holds of all it makes.
use pretrend_ai.Base.{
  ℕ, any, Bool, true, false, ◌≡◌, refl, ◌&&◌, ◌||◌, not, Option, none, some, List, [], ◌∷◌, All,
  append-All, if◌then◌else◌, Bool-cases, inl, inr, arith,
}
use pretrend_ai.Base.Float.{FloatOps, fmin}
use pretrend_ai.Base.Dict.{get, has}
use pretrend_ai.Backtest.Portfolio.{Position, Portfolio, Trade, bought, sold, buy, sell, sell_found}
use pretrend_ai.Paper.Rebalance.{
  Turn, Outcome, Terms, Holding, skip, key_error, done, add_trade, run_loop, and_then, is_locked,
  sell_above_cent, floored, exit_turn, reduce_at, reduce_turn, amount_now, buy_at, buy_turn,
  run_passes, sell_passes, buy_pass, terms_of, holdings, rebalance_to_target,
}

module _ (fl : FloatOps) (S : Type 0) (P : Trade fl S → Type 0) where
  abbrev OfTrade : Option (Trade fl S) → Type 0
  OfTrade none = Unit
  OfTrade (some t) = P t

  unfoldable Keeps : Turn fl S → Type 0
  Keeps turn = OfTrade turn.trade

  choose : (b : Bool) (x y : Turn fl S) → Keeps x → Keeps y → Keeps (if b then x else y)
  choose true x y h k = h
  choose false x y h k = k

  skip-Keeps : (p : Portfolio fl S) → Keeps (skip fl S p)
  unfolding Keeps
  skip-Keeps p = tt

  add_trade-All :
      (turn : Turn fl S) (ts : List (Trade fl S))
      → Keeps turn
      → All P ts
      → All P (add_trade fl S turn.trade ts)
  unfolding Keeps
  add_trade-All turn ts h k = go turn.trade h
    where
      go : (o : Option (Trade fl S)) → OfTrade o → All P (add_trade fl S o ts)
      go none h = k
      go (some t) h = (h, k)

  run_loop-All :
      {T : Type 0} (body : T → Portfolio fl S → Turn fl S) (ts : List T) (p : Portfolio fl S)
      → ((t : T) (q : Portfolio fl S) → Keeps (body t q))
      → All P (run_loop fl S body ts p).trades
  unfolding run_loop
  run_loop-All body [] p f = tt
  run_loop-All body (t ∷ ts) p f = elim (Bool-cases (body t p).failed) [
    | inl e ↦ rw e tt
    | inr e ↦ rw e (add_trade-All (body t p) _ (f t p) (run_loop-All body ts (body t p).book f))
  ]

  and_then-All :
      (first : Outcome fl S) (next : Portfolio fl S → Outcome fl S)
      → All P first.trades
      → All P (next first.book).trades
      → All P (and_then fl S first next).trades
  unfolding and_then
  and_then-All first next h k = elim (Bool-cases first.failed) [
    | inl e ↦ rw e h
    | inr e ↦ rw e (append-All P first.trades (next first.book).trades h k)
  ]

-- A property of trades that holds of the sales of symbols which are not locked, where sales are allowed,
-- and of the purchases, where they are.
module _ (fl : FloatOps) (S : Type 0) (eqb : S → S → Bool) (terms : Terms fl S)
    (allow_sell allow_buy : Bool) (P : Trade fl S → Type 0)
    (sold_P : allow_sell ≡ true
      → (sym : S) → is_locked fl S eqb terms sym ≡ false
      → (shares price amount : fl.F)
      → P (record {
        trade_date = terms.day;
        symbol = sym;
        action = sold;
        shares = shares;
        price = price;
        amount = amount;
      }))
    (bought_P : allow_buy ≡ true
      → (sym : S) (shares price amount : fl.F)
      → P (record {
        trade_date = terms.day;
        symbol = sym;
        action = bought;
        shares = shares;
        price = price;
        amount = amount;
      })) where
  open fl use {F, lit, le, lt, add, sub}

  abbrev K : Turn fl S → Type 0
  K turn = Keeps fl S P turn

  sell-Keeps :
      (sym : S) (amount price : F) (p : Portfolio fl S) (o : Option (Position fl))
      → allow_sell ≡ true
      → is_locked fl S eqb terms sym ≡ false
      → K (done fl S (sell_found fl S eqb sym amount price terms.day p o))
  unfolding Keeps
  sell-Keeps sym amount price p none a h = tt
  sell-Keeps sym amount price p (some pos) a h =
      elim (Bool-cases (le pos.shares (lit 0 0) || le price (lit 0 0))) [
        | inl e ↦ rw e tt
        | inr e ↦ elim (Bool-cases (le amount (lit 0 0))) [
          | inl k ↦ rw (e, k) tt
          | inr k ↦ rw (e, k) (sold_P a sym h _ price _)
        ]
      ]

  cent-Keeps :
      (sym : S) (amount price : F) (p : Portfolio fl S)
      → allow_sell ≡ true
      → is_locked fl S eqb terms sym ≡ false
      → K (sell_above_cent fl S eqb terms sym amount price p)
  unfolding sell
  cent-Keeps sym amount price p a h =
      choose fl S P (le amount (lit 1 2)) (skip fl S p) _ (skip-Keeps fl S P p)
        (sell-Keeps sym amount price p (get eqb sym p.positions) a h)

  buy-Keeps :
      allow_buy ≡ true
      → (sym : S) (amount price : F) (p : Portfolio fl S)
      → K (done fl S (buy fl S eqb sym amount price terms.day p))
  unfolding buy Keeps
  buy-Keeps b sym amount price p = elim (Bool-cases (le amount (lit 0 0) || le price (lit 0 0))) [
    | inl e ↦ rw e tt
    | inr e ↦ elim (Bool-cases (le (fmin fl amount p.cash) (lit 0 0))) [
      | inl k ↦ rw (e, k) tt
      | inr k ↦ rw (e, k) (bought_P b sym _ price _)
    ]
  ]

  exit-Keeps :
      allow_sell ≡ true
      → (h : Holding fl S eqb) (p : Portfolio fl S) → K (exit_turn fl S eqb terms h p)
  unfolding exit_turn
  exit-Keeps a h p =
      let guard =
        not (has eqb h.symbol terms.targets)
        && (not (is_locked fl S eqb terms h.symbol) && lt (lit 0 0) h.amount) in
      elim (Bool-cases guard) [
        | inl k ↦ rw k (
            cent-Keeps h.symbol (floored fl S eqb terms h.symbol h.price h.amount h.amount) h.price
              p a (ground arith))
        | inr k ↦ rw k (skip-Keeps fl S P p)
      ]

  stop-Keeps : (p : Portfolio fl S) → K (key_error fl S p)
  unfolding Keeps
  stop-Keeps p = tt

  reduce_at-Keeps :
      (sym : S) (target cur : F) (price : Option F) (p : Portfolio fl S)
      → allow_sell ≡ true
      → is_locked fl S eqb terms sym ≡ false
      → K (reduce_at fl S eqb terms sym target cur price p)
  reduce_at-Keeps sym target cur none p a h =
      choose fl S P (le (sub cur target) (lit 1 2)) _ _ (skip-Keeps fl S P p) (stop-Keeps p)
  reduce_at-Keeps sym target cur (some price) p a h =
      cent-Keeps sym (floored fl S eqb terms sym price (sub cur target) cur) price p a h

  reduce-Keeps :
      allow_sell ≡ true → (t : S × F) (p : Portfolio fl S) → K (reduce_turn fl S eqb terms t p)
  unfolding reduce_turn
  reduce-Keeps a (sym, target) p =
      let price = get eqb sym terms.prices in
      let cur = amount_now fl S eqb (get eqb sym p.positions) price in
      elim (Bool-cases (is_locked fl S eqb terms sym)) [
        | inl e ↦ rw e (skip-Keeps fl S P p)
        | inr e ↦ rw e (
            choose fl S P (lt (add target (lit 1 2)) cur)
              (reduce_at fl S eqb terms sym target cur price p) (skip fl S p)
              (reduce_at-Keeps sym target cur price p a e) (skip-Keeps fl S P p))
      ]

  buy_at-Keeps :
      allow_buy ≡ true
      → (sym : S) (amount : F) (price : Option F) (p : Portfolio fl S)
      → K (buy_at fl S eqb terms sym amount price p)
  buy_at-Keeps b sym amount none p = stop-Keeps p
  buy_at-Keeps b sym amount (some price) p = buy-Keeps b sym amount price p

  buy_turn-Keeps :
      allow_buy ≡ true → (t : S × F) (p : Portfolio fl S) → K (buy_turn fl S eqb terms t p)
  unfolding buy_turn
  buy_turn-Keeps b (sym, target) p =
      let price = get eqb sym terms.prices in
      let cur = amount_now fl S eqb (get eqb sym p.positions) price in
      choose fl S P (lt (add cur (lit 1 2)) target)
        (buy_at fl S eqb terms sym (sub target cur) price p) (skip fl S p)
        (buy_at-Keeps b sym (sub target cur) price p) (skip-Keeps fl S P p)

  sell_passes-All :
      (b : Bool) (held : List (Holding fl S eqb)) (p : Portfolio fl S)
      → allow_sell ≡ b
      → All P (sell_passes fl S eqb terms held b p).trades
  unfolding sell_passes
  sell_passes-All false held p a = tt
  sell_passes-All true held p a =
      let exits = run_loop fl S (exit_turn fl S eqb terms) held p in
      and_then-All fl S P exits (run_loop fl S (reduce_turn fl S eqb terms) terms.targets)
        (run_loop-All fl S P (exit_turn fl S eqb terms) held p (exit-Keeps a))
        (run_loop-All fl S P (reduce_turn fl S eqb terms) terms.targets exits.book (reduce-Keeps a))

  buy_pass-All :
      (b : Bool) (q : Portfolio fl S) → allow_buy ≡ b → All P (buy_pass fl S eqb terms b q).trades
  unfolding buy_pass
  buy_pass-All false q a = tt
  buy_pass-All true q a =
      run_loop-All fl S P (buy_turn fl S eqb terms) terms.targets q (buy_turn-Keeps a)

  pub run_passes-All :
      (held : List (Holding fl S eqb)) (p : Portfolio fl S)
      → All P (run_passes fl S eqb terms held allow_sell allow_buy p).trades
  unfolding run_passes
  run_passes-All held p =
      let sells = sell_passes fl S eqb terms held allow_sell p in
      and_then-All fl S P sells (buy_pass fl S eqb terms allow_buy)
        (sell_passes-All allow_sell held p refl) (buy_pass-All allow_buy sells.book refl)

module _ (fl : FloatOps) (S : Type 0) (eqb : S → S → Bool) (day : ℕ) (locked : List S)
    (allow_sell allow_buy : Bool) (P : Trade fl S → Type 0)
    (sold_P : allow_sell ≡ true
      → (sym : S) → any (λ l. eqb l sym) locked ≡ false
      → (shares price amount : fl.F)
      → P (record {
        trade_date = day;
        symbol = sym;
        action = sold;
        shares = shares;
        price = price;
        amount = amount;
      }))
    (bought_P : allow_buy ≡ true
      → (sym : S) (shares price amount : fl.F)
      → P (record {
        trade_date = day;
        symbol = sym;
        action = bought;
        shares = shares;
        price = price;
        amount = amount;
      })) where
  pub rebalance-All :
      (prices : List (S × fl.F)) (ratio : fl.F) (weights : List (S × fl.F)) (is_schd : S → Bool)
      (schd_min_weight nav : fl.F) (p : Portfolio fl S)
      → let out =
          rebalance_to_target fl S eqb prices ratio weights day allow_sell allow_buy locked is_schd
            schd_min_weight nav p in
        All P out.trades
  unfolding rebalance_to_target
  rebalance-All prices ratio weights is_schd schd_min_weight nav p =
      run_passes-All fl S eqb
        (terms_of fl S eqb prices ratio weights day locked is_schd schd_min_weight nav p) allow_sell
        allow_buy P sold_P bought_P (holdings fl S eqb p.positions prices) p
