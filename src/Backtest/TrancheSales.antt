-- ===== src/Backtest/TrancheSales.antt =====
-- What the staged sale of src/pretrend/pipeline/backtest/runner.py sells, and that it ends without an error.
use mathlib.Core.Path.{subst}
use pretrend_ai.Base.{
  ℕ, arith, Bool, true, false, not, ◌&&◌, ◌||◌, refl, ap, sym, ◌∙◌, Option, none, some, List, [],
  ◌∷◌, ◌≡◌, All, append-All, if_cases, if◌then◌else◌,
}
use pretrend_ai.Base.Float.{FloatOps, fmin, fmax}
use pretrend_ai.Base.Dict.{get}
use pretrend_ai.Backtest.Portfolio.{
  Position, Portfolio, Trade, sold, market_value, sell, sell_found,
}
use pretrend_ai.Backtest.Rebalancer.{Names, Config, Weights}
use pretrend_ai.Backtest.Solvency.{SignLaws, Solvent, sell-Solvent}
use pretrend_ai.Backtest.Tranche.{
  StagedSellPlan, Traded, Share, with_trade, schd_limit, amount_to_sell, sell_limited, sell_valued,
  sell_position, and_then, sell_positions, sell_share,
}

module _ (fl : FloatOps) (names : Names) where
  open fl use {F, lit, sub, mul, div, lt, le, eq}
  open names use {S, same_symbol, schd}

  -- The trade is a sale of the day, and not of a SCHD that is locked.
  abbrev pub is_schd_locked : Config fl names → Bool
  is_schd_locked config = config.schd_sell_locked && not (lt (lit 0 1) config.schd_min_weight)

  abbrev pub IsTrancheSale : Config fl names → ℕ → Trade fl S → Type 0
  IsTrancheSale config day t =
      (t.action ≡ sold)
      × (t.trade_date ≡ day)
      × ((is_schd_locked config && same_symbol t.symbol schd) ≡ false)

module _ (fl : FloatOps) (laws : SignLaws fl) (names : Names) where
  open fl use {F, lit, sub, mul, div, lt, le, eq}
  open names use {S, same_symbol, schd}

  module _ (config : Config fl names) (day : ℕ) where
    -- The portfolio is solvent, and each trade is a sale of the tranche.
    unfoldable pub Kept : Traded fl names → Type 0
    Kept t = Solvent fl S t.1 × All (IsTrancheSale fl names config day) t.0

    OfSale : S → Option (Trade fl S) → Type 0
    OfSale symbol none = Unit
    OfSale symbol (some t) = (t.action ≡ sold) × (t.trade_date ≡ day) × (t.symbol ≡ symbol)

    sell_found-OfSale :
        (symbol : S) (amount price : F) (p : Portfolio fl S) (o : Option (Position fl))
        → OfSale symbol (sell_found fl S same_symbol symbol amount price day p o).0
    unfolding OfSale
    sell_found-OfSale symbol amount price p none = tt
    sell_found-OfSale symbol amount price p (some pos) =
        let P = λ (r : Option (Trade fl S) × Portfolio fl S). OfSale symbol r.0 in
        if_cases P (le pos.shares (lit 0 0) || le price (lit 0 0)) (none, p) _ (λ e. tt)
          (λ e. if_cases P (le amount (lit 0 0)) (none, p) _ (λ k. tt) (λ k. (refl, refl, refl)))

    with_trade-Kept :
        (symbol : S) (trades : List (Trade fl S)) (o : Option (Trade fl S)) (p : Portfolio fl S)
        → (is_schd_locked fl names config && same_symbol symbol schd) ≡ false
        → OfSale symbol o
        → Solvent fl S p
        → All (IsTrancheSale fl names config day) trades
        → Kept (with_trade fl names trades (o, p))
    unfolding Kept OfSale
    with_trade-Kept symbol trades none p l k h ts = (h, ts)
    with_trade-Kept symbol trades (some t) p l k h ts =
        let free = ap (λ s. is_schd_locked fl names config && same_symbol s schd) k.2 ∙ l in
        (
          h,
          append-All (IsTrancheSale fl names config day) trades (t ∷ []) ts ((k.0, k.1, free), tt),
        )

    sell_some-Kept :
        (symbol : S) (price amount : F) (t : Traded fl names)
        → (is_schd_locked fl names config && same_symbol symbol schd) ≡ false
        → Kept t
        → Kept (sell_limited fl names day symbol price (some amount) t)
    unfolding Kept sell
    sell_some-Kept symbol price amount t l h =
        let r = sell fl S same_symbol symbol amount price day t.1 in
        if_cases Kept (lt amount (lit 1 2)) t (with_trade fl names t.0 r) (λ e. h)
          (λ e.
            with_trade-Kept symbol t.0 r.0 r.1 l
              (sell_found-OfSale symbol amount price t.1 (get same_symbol symbol t.1.positions))
              (sell-Solvent fl laws S same_symbol symbol amount price day t.1 h.0) h.1)

    sell_limit-Kept :
        (min_hold : F) (symbol : S) (price value amount : F) (t : Traded fl names)
        → Kept t
        → Kept (
            sell_limited fl names day symbol price
              (schd_limit fl names config min_hold symbol value amount)
              t)
    sell_limit-Kept min_hold symbol price value amount t h =
        let L = λ (o : Option F). Kept (sell_limited fl names day symbol price o t) in
        let capped = fmin fl amount (fmax fl (sub value min_hold) (lit 0 1)) in
        let heavy = lt (lit 0 1) config.schd_min_weight in
        if_cases L (same_symbol symbol schd)
          (if heavy then some capped else if config.schd_sell_locked then none else some amount)
          (some amount)
          (λ e.
            if_cases L heavy (some capped) (if config.schd_sell_locked then none else some amount)
              (λ m. sell_some-Kept symbol price capped t (ground arith) h)
              (λ m.
                if_cases L config.schd_sell_locked none (some amount) (λ l. h)
                  (λ l. sell_some-Kept symbol price amount t (ground arith) h)))
          (λ e. sell_some-Kept symbol price amount t (ground arith) h)

    -- There is a result, and it is kept.
    unfoldable pub Succeeds : Option (Traded fl names) → Type 0
    Succeeds none = false ≡ true
    Succeeds (some t) = Kept t

    amount-some :
        (weights : Weights fl names) (total sell_amount : F) (symbol : S) (value : F)
        → eq total (lit 0 0) ≡ false
        → (x : F) × (amount_to_sell fl names weights total sell_amount symbol value ≡ some x)
    amount-some [] total sell_amount symbol value e = (mul sell_amount (div value total), rw e refl)
    amount-some (w ∷ ws) total sell_amount symbol value e = (_, refl)

    module _ (weights : Weights fl names) (share : Share fl names)
        (some_value : eq share.total_invested (lit 0 0) ≡ false) where
      position-Succeeds :
          (symbol : S) (pos : Position fl) (o : Option F) (t : Traded fl names)
          → Kept t
          → Succeeds (sell_position fl names config weights share day symbol pos o t)
      unfolding Succeeds
      position-Succeeds symbol pos none t h = h
      position-Succeeds symbol pos (some price) t h =
          let value = market_value fl S same_symbol pos price in
          let x =
            amount-some weights share.total_invested share.sell_amount symbol value some_value in
          let V = λ (o : Option F).
            Succeeds (sell_valued fl names config share day symbol price value o t) in
          if_cases Succeeds (le pos.shares (lit 0 0)) (some t) _ (λ e. h)
            (λ e.
              subst V (sym x.1) (sell_limit-Kept share.schd_min_hold symbol price value x.0 t h))

      then-Succeeds :
          (o : Option (Traded fl names)) (f : Traded fl names → Option (Traded fl names))
          → Succeeds o
          → ((t : Traded fl names) → Kept t → Succeeds (f t))
          → Succeeds (and_then fl names o f)
      unfolding Succeeds
      then-Succeeds none f h k = h
      then-Succeeds (some t) f h k = k t h

      positions-Succeeds :
          (prices : List (S × F)) (ps : List (S × Position fl)) (t : Traded fl names)
          → Kept t
          → Succeeds (sell_positions fl names config weights share day prices ps t)
      unfolding sell_positions
      positions-Succeeds prices [] t h = unfold Succeeds in h
      positions-Succeeds prices ((symbol, pos) ∷ ps) t h =
          then-Succeeds
            (sell_position fl names config weights share day symbol pos
              (get same_symbol symbol prices) t)
            (sell_positions fl names config weights share day prices ps)
            (position-Succeeds symbol pos (get same_symbol symbol prices) t h)
            (positions-Succeeds prices ps)

    positive-nonzero : (x : F) → le x (lit 0 0) ≡ false → eq x (lit 0 0) ≡ false
    positive-nonzero x h = ground (arith, laws.le_def x (lit 0 0), laws.order.eq_def x (lit 0 0))

    pub share-Succeeds :
        (p : Portfolio fl S) (plan : StagedSellPlan fl names) (prices : List (S × F))
        (share : Share fl names)
        → Solvent fl S p
        → Succeeds (sell_share fl names p plan prices day config share)
    unfolding Succeeds Kept
    share-Succeeds p plan prices share h =
        let sold_all =
          sell_positions fl names config plan.target_weights share day prices p.positions ([], p) in
        if_cases Succeeds (le share.total_invested (lit 0 0)) (some ([], p))
          (if le share.sell_amount (lit 0 0) then some ([], p) else sold_all) (λ e. (h, tt))
          (λ e.
            if_cases Succeeds (le share.sell_amount (lit 0 0)) (some ([], p)) sold_all
              (λ k. (h, tt))
              (λ k.
                positions-Succeeds plan.target_weights share
                  (positive-nonzero share.total_invested e) prices p.positions ([], p) (h, tt)))
