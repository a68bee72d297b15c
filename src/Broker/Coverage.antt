-- ===== src/Broker/Coverage.antt =====
-- No order is forgotten: each one that is looked at leaves a filled quantity or a row of its cancellation.
use pretrend_ai.Base.{
  ℕ, Bool, true, false, ◌≡◌, refl, ◌||◌, Option, none, some, List, [], ◌∷◌, ◌++◌, if◌then◌else◌,
  ◌&&◌, not, ltb, Bool-cases, inl, inr, any, decided, arith,
}
use pretrend_ai.Base.Float.{FloatOps}
use pretrend_ai.Base.Dict.{put, has}
use pretrend_ai.Broker.Adapter.{
  Status, filled, partial_filled, accepted, unknown_status, other_status, CancelStatus,
  already_filled,
}
use pretrend_ai.Broker.Unfilled.{
  Checker, Order, Cancelled, Progress, settle, after_cancel, cancel_unfilled, on_status,
  check_order, check_orders, check_and_cancel_unfilled, is_executed, or_unknown, is_cancelled,
  or_failed, start, warn_error, set_qty, warn, at_world, add_row, cancelled_row, read_ccnl,
  already_executed, note_unknown, zero_accepted,
}

module _ {ℓ κ} {K : Type ℓ} {V : Type κ} (dec : Discrete K) where
  has-put :
      (i k : K) (v : V) (m : List (K × V))
      → (decided dec k i || has (decided dec) i m) ≡ true
      → has (decided dec) i (put (decided dec) k v m) ≡ true
  has-put i k v [] h = ground arith
  has-put i k v ((j, w) ∷ m) h =
      elim (dec j k)
        as (λ d.
          has (decided dec) i (
            if elim d [ yes _ ↦ true | no _ ↦ false ]
            then (j, v) ∷ m
            else (j, w) ∷ put (decided dec) k v m)
          ≡ true) [ yes e ↦ grind arith | no n ↦ grind (arith, has-put i k v m) ]

any-snoc {κ} :
    {V : Type κ} (p : V → Bool) (xs : List V) (y : V) → any p (xs ++ (y ∷ [])) ≡ (any p xs || p y)
any-snoc p [] y = ground arith
any-snoc p (x ∷ xs) y = ground (arith, any-snoc p xs y)

or_true : {b : Bool} (a : Bool) → b ≡ true → (a || b) ≡ true
or_true a h = ground arith

or_left : {a : Bool} (b : Bool) → a ≡ true → (a || b) ≡ true
or_left b h = ground arith

or_mono : (a b c : Bool) → (a || b) ≡ true → (b ≡ true → c ≡ true) → (a || c) ≡ true
or_mono a b c h f = elim (Bool-cases b) [ inl e ↦ rw (f e) (ground arith) | inr e ↦ ground arith ]

module _ {fl : FloatOps} {OrderId S W : Type 0} (c : Checker fl OrderId S W) where
  abbrev P : Type 0
  P = Progress fl OrderId S W

  -- The order has an entry in the map of filled quantities or a row of its cancellation.
  unfoldable pub covered : OrderId → P → Bool
  covered i p =
      has (decided c.id_dec) i p.actual_qty_map
      || any (λ row. decided c.id_dec row.order.order_id i) p.cancelled_rows

  -- The loop does not skip it.
  abbrev pub looked_at : Order OrderId S → Bool
  looked_at o =
      not (c.blank_id o.order_id || c.blank_symbol o.symbol) && not (c.is_failed o.order_id)

  seen-covered :
      (i : OrderId) (w : W) (p : P) → covered i p ≡ true → covered i (at_world c w p) ≡ true
  unfolding covered
  seen-covered i w p h = h

  choose :
      (i : OrderId) (b : Bool) (x y : P)
      → b ≡ true
      → covered i x ≡ true
      → covered i (if b then x else y) ≡ true
  choose i true x y e h = h
  choose i false x y e h = ground arith

  set_qty-covered :
      (i id : OrderId) (q : Option fl.F) (p : P)
      → (decided c.id_dec id i || covered i p) ≡ true
      → covered i (set_qty c id q p) ≡ true
  unfolding covered
  set_qty-covered i id q p h = ground (arith, has-put c.id_dec i id q p.actual_qty_map)

  add_row-covered :
      (i : OrderId) (row : Cancelled OrderId S) (p : P)
      → (decided c.id_dec row.order.order_id i || covered i p) ≡ true
      → covered i (add_row c row p) ≡ true
  unfolding covered
  add_row-covered i row p h =
      let named = λ (r : Cancelled OrderId S). decided c.id_dec r.order.order_id i in
      ground (arith, any-snoc named p.cancelled_rows row)

  settle-covered :
      (i id : OrderId) (p : P)
      → (decided c.id_dec id i || covered i p) ≡ true
      → covered i (settle c id p) ≡ true
  unfolding settle covered
  settle-covered i id p h =
      let value = read_ccnl fl (c.adapter.inquire_algo_ccnl id p.world).0 in
      elim (Bool-cases c.adapter.can_inquire) [
        | inl e ↦ elim (Bool-cases value.1) [
          | inl k ↦ rw (e, k) (set_qty-covered i id value.0 p h)
          | inr k ↦ rw (e, k) (set_qty-covered i id value.0 p h)
        ]
        | inr e ↦ rw e (set_qty-covered i id none p h)
      ]

  after_cancel-covered :
      (i : OrderId) (o : Order OrderId S) (s : Status) (d : CancelStatus) (p : P)
      → (decided c.id_dec o.order_id i || covered i p) ≡ true
      → covered i (after_cancel c o s d p) ≡ true
  unfolding after_cancel covered
  after_cancel-covered i o s d p h =
      let again = c.adapter.get_order_status o.order_id p.world in
      let asked = at_world c again.1 p in
      let row = cancelled_row c o s already_filled in
      let added = add_row-covered i (cancelled_row c o s d) p h in
      let settled = add_row c row (warn c (already_executed o.order_id) asked) in
      elim (Bool-cases (is_cancelled c d)) [
        | inl e ↦ rw e added
        | inr e ↦ elim (Bool-cases (is_executed c (or_unknown c again.0))) [
          | inl k ↦
              rw (e, k)
                (settle-covered i o.order_id settled
                  (or_true (decided c.id_dec o.order_id i) (add_row-covered i row p h)))
          | inr k ↦ rw (e, k) added
        ]
      ]

  note_unknown-covered :
      (i id : OrderId) (s : Status) (p : P)
      → covered i p ≡ true
      → covered i (note_unknown c id s p) ≡ true
  unfolding covered
  note_unknown-covered i id filled p h = h
  note_unknown-covered i id partial_filled p h = h
  note_unknown-covered i id accepted p h = h
  note_unknown-covered i id unknown_status p h =
      set_qty-covered i id none p (or_true (decided c.id_dec id i) h)
  note_unknown-covered i id other_status p h = h

  zero_accepted-covered :
      (i id : OrderId) (s : Status) (p : P)
      → covered i p ≡ true
      → covered i (zero_accepted c id s p) ≡ true
  zero_accepted-covered i id filled p h = h
  zero_accepted-covered i id partial_filled p h = h
  zero_accepted-covered i id accepted p h =
      set_qty-covered i id _ p (or_true (decided c.id_dec id i) h)
  zero_accepted-covered i id unknown_status p h = h
  zero_accepted-covered i id other_status p h = h

  cancel_unfilled-covered :
      (i : OrderId) (o : Order OrderId S) (s : Status) (p : P)
      → (decided c.id_dec o.order_id i || covered i p) ≡ true
      → covered i (cancel_unfilled c o s p) ≡ true
  unfolding cancel_unfilled
  cancel_unfilled-covered i o s p h =
      let noted = note_unknown c o.order_id s p in
      let answer = c.adapter.cancel_order o.order_id o.symbol o.qty o.side noted.world in
      let seen = at_world c answer.1 noted in
      after_cancel-covered i o s (or_failed c answer.0) (zero_accepted c o.order_id s seen) (
        or_mono (decided c.id_dec o.order_id i) (covered i p) _ h (λ k.
          zero_accepted-covered i o.order_id s seen
            (seen-covered i answer.1 noted (note_unknown-covered i o.order_id s p k))))

  on_status-covered :
      (i : OrderId) (o : Order OrderId S) (s : Status) (p : P)
      → (decided c.id_dec o.order_id i || covered i p) ≡ true
      → covered i (on_status c o s p) ≡ true
  unfolding on_status covered
  on_status-covered i o filled p h = settle-covered i o.order_id p h
  on_status-covered i o partial_filled p h = settle-covered i o.order_id _ h
  on_status-covered i o accepted p h = cancel_unfilled-covered i o accepted p h
  on_status-covered i o unknown_status p h = cancel_unfilled-covered i o unknown_status p h
  on_status-covered i o other_status p h = cancel_unfilled-covered i o other_status p h

  warn_error-covered :
      (i id : OrderId) (answer : Option Status) (w : W) (p : P)
      → covered i (warn_error c id answer (at_world c w p)) ≡ covered i p
  unfolding covered
  warn_error-covered i id none w p = refl
  warn_error-covered i id (some s) w p = refl

  -- A turn that looks at an order keeps what was covered and covers the order.
  check_order-covered :
      (i : OrderId) (o : Order OrderId S) (p : P)
      → ((decided c.id_dec o.order_id i && looked_at o) || covered i p) ≡ true
      → covered i (check_order c o p) ≡ true
  unfolding check_order covered
  check_order-covered i o p h =
      let answer = c.adapter.get_order_status o.order_id p.world in
      elim (Bool-cases (c.blank_id o.order_id || c.blank_symbol o.symbol)) [
        | inl b ↦ rw b (ground arith)
        | inr b ↦ elim (Bool-cases (c.is_failed o.order_id)) [
          | inl f ↦ rw (b, f) (ground arith)
          | inr f ↦
              rw (b, f)
                (on_status-covered i o (or_unknown c answer.0)
                  (warn_error c o.order_id answer.0 (at_world c answer.1 p))
                  (rw (warn_error-covered i o.order_id answer.0 answer.1 p) (ground arith)))
        ]
      ]

  check_orders-covered :
      (i : OrderId) (os : List (Order OrderId S)) (p : P)
      → (any (λ o. decided c.id_dec o.order_id i && looked_at o) os || covered i p) ≡ true
      → covered i (check_orders c os p) ≡ true
  unfolding check_orders
  check_orders-covered i [] p h = h
  check_orders-covered i (o ∷ os) p h =
      check_orders-covered i os (check_order c o p) (ground (arith, check_order-covered i o p))

  -- If the adapter can cancel, each order with an id and a symbol that was not refused at its placing
  -- ends with a filled quantity (a number or an explicit `None`) or a row of its cancellation, whatever the broker answers.
  pub no_order_forgotten :
      (i : OrderId) (orders : List (Order OrderId S)) (wait_sec : ℕ) (w : W)
      → c.adapter.can_cancel ≡ true
      → any (λ o. decided c.id_dec o.order_id i && looked_at o) orders ≡ true
      → covered i (check_and_cancel_unfilled c orders wait_sec w) ≡ true
  unfolding check_and_cancel_unfilled
  no_order_forgotten i [] wait_sec w e h = ground arith
  no_order_forgotten i (o ∷ os) wait_sec w e h =
      let from = start c (if ltb 0 wait_sec then c.adapter.sleep wait_sec w else w) in
      choose i c.adapter.can_cancel (check_orders c (o ∷ os) from) _ e
        (check_orders-covered i (o ∷ os) from (or_left _ h))
