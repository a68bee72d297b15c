-- ===== src/Broker/LedgerOrders.antt =====
-- The orders placed for a ledger against its rows, and their number.
use pretrend_ai.Base.{
  ◌≤◌, ◌<◌, true, false, ◌≡◌, refl, ◌⊎◌, List, [], ◌∷◌, All, All-mono, inl, inr, arith,
}
use pretrend_ai.Base.Float.{FloatOps}
use pretrend_ai.Backtest.Portfolio.{Side, bought, sold}
use pretrend_ai.Broker.Execute.{RowAction, buy_row, sell_row, no_row, LedgerRow, Executor}
use pretrend_ai.Broker.Orders.{qty_of, execute_from_ledger_rows}
use pretrend_ai.Broker.OrderSafety.{Placement, placement, traced, Allows, orders-Safe}

-- The predicate holds of a member of the list.
unfoldable pub Among : {A : Type 0} → (A → Type 0) → List A → Type 0
Among P [] = false ≡ true
Among P (x ∷ xs) = P x ⊎ Among P xs

each-Among :
    {A B : Type 0} (R : A → B → Type 0) (xs : List A)
    → All (λ a. (b : B) → R a b → Among (λ c. R c b) xs) xs
unfolding Among
each-Among R [] = tt
each-Among R (x ∷ xs) = (
  λ b r. inl r,
  All-mono (λ a. (b : _) → R a b → Among (λ c. R c b) xs)
      (λ a. (b : _) → R a b → Among (λ c. R c b) (x ∷ xs)) (λ a f b r. inr (f b r)) xs
      (each-Among R xs),
)

abbrev pub IsSideOf : RowAction → Side → Type 0
IsSideOf buy_row bought = Unit
IsSideOf buy_row sold = false ≡ true
IsSideOf sell_row sold = Unit
IsSideOf sell_row bought = false ≡ true
IsSideOf no_row side = false ≡ true

module _ {fl : FloatOps} {OrderId S W : Type 0} (x : Executor fl OrderId S W) where
  abbrev t : Executor fl OrderId S (W × List (Placement S))
  t = traced x

  -- The order has the symbol and the side of the row, and some of its quantity, at most all.
  pub record IsOrderOf (row : LedgerRow fl S) (p : Placement S) : Type 0 where
    pub same_symbol : row.symbol ≡ p.symbol
    pub same_side : IsSideOf row.action p.side
    pub some_qty : 0 < p.qty
    pub at_most : p.qty ≤ qty_of t row

  allows :
      (Q : Placement S → Type 0) (row : LedgerRow fl S) (action : RowAction)
      → row.action ≡ action
      → ((p : Placement S) → IsOrderOf row p → Q p)
      → Allows x Q row action
  allows Q row buy_row e f = λ qty k h.
      f (placement bought row.symbol qty)
        (record { same_symbol = refl; same_side = rw e tt; some_qty = k; at_most = h })
  allows Q row sell_row e f = λ k.
      f (placement sold row.symbol (qty_of t row))
        (record { same_symbol = refl; same_side = rw e tt; some_qty = k; at_most = omega arith })
  allows Q row no_row e f = tt

  -- Whatever the broker answers, each order that is placed is one of a row of the ledger: its symbol and its
  -- side, and a positive quantity up to the row's.
  pub orders_follow_ledger :
      (rows : List (LedgerRow fl S)) (w : W)
      → All
          (λ (p : Placement S). Among (λ row. IsOrderOf row p) rows)
          (execute_from_ledger_rows t rows (w, [])).world.1
  orders_follow_ledger rows w =
      let Q = λ (p : Placement S). Among (λ row. IsOrderOf row p) rows in
      orders-Safe x Q rows w (
        All-mono (λ (row : LedgerRow fl S). (p : Placement S) → IsOrderOf row p → Q p)
          (λ (row : LedgerRow fl S). Allows x Q row row.action)
          (λ row f. allows Q row row.action refl f) rows (each-Among IsOrderOf rows))
