-- ===== src/Broker/Unfilled.antt =====
-- src/pretrend/pipeline/broker/order_manager.py: `_sum_ccnl_qty` and `check_and_cancel_unfilled`.
-- The text of a warning is its constructor, and the error text of a row is left out. Python's string methods are the parameters `blank_id`,
-- `blank_symbol` (`not s.strip()`) and `is_failed` (`startswith("FAILED-")`).
use pretrend_ai.Base.{
  ℕ, Bool, true, false, ◌||◌, Option, none, some, List, [], ◌∷◌, ◌++◌, if◌then◌else◌, ltb, decided,
}
use pretrend_ai.Base.Float.{FloatOps}
use pretrend_ai.Base.Dict.{get, put}
use pretrend_ai.Backtest.Portfolio.{Side}
use pretrend_ai.Broker.Adapter.{
  Status, filled, partial_filled, accepted, unknown_status, other_status, CancelStatus,
  cancelled_status, failed_status, already_filled, other_cancel_status, Cell, missing, unreadable,
  number, CcnlRow, Adapter,
}

pub data Warning (OrderId : Type 0) : Type 0 where
  no_cancel_support : Warning OrderId
  inquiry_empty order_failed status_error partial_fill status_unknown cancel_done already_executed
        cancel_failed :
      OrderId → Warning OrderId

pub record Order (OrderId S : Type 0) : Type 0 where
  pub order_id : OrderId
  pub symbol : S
  pub side : Side
  pub qty : ℕ

pub record Cancelled (OrderId S : Type 0) : Type 0 where
  pub order : Order OrderId S
  pub fill_status : Status
  pub cancel_status : CancelStatus

-- The three accumulators of the loop and the world.
pub record Progress (fl : FloatOps) (OrderId S W : Type 0) : Type 0 where
  pub cancelled_rows : List (Cancelled OrderId S)
  pub actual_qty_map : List (OrderId × Option fl.F)
  pub warnings : List (Warning OrderId)
  pub world : W

module _ (fl : FloatOps) where
  open fl use {F, lit, add, lt}

  abbrev pub first_cell : Cell F → F → F → F
  first_cell missing total other = other
  first_cell unreadable total other = total
  first_cell (number q) total other = add total q

  -- the first of the three keys that the row has decides, readable or not
  unfoldable pub ccnl_total : F → List (CcnlRow fl) → F
  ccnl_total total [] = total
  ccnl_total total (r ∷ rows) =
      ccnl_total
        (first_cell r.upper_ft_ccld_qty total
          (first_cell r.lower_ft_ccld_qty total (first_cell r.ccld_qty total total)))
        rows

  abbrev pub positive_or_none : F → Option F
  positive_or_none total = if lt (lit 0 0) total then some total else none

  -- what `_sum_ccnl_qty` makes of the answer: its value, and whether it warns
  abbrev pub read_ccnl : Option (List (CcnlRow fl)) → Option F × Bool
  read_ccnl none = (none, false)
  read_ccnl (some []) = (none, true)
  read_ccnl (some (r ∷ rows)) = (positive_or_none (ccnl_total (lit 0 1) (r ∷ rows)), false)

-- An adapter with the string tests of the loop.
pub record Checker (fl : FloatOps) (OrderId S W : Type 0) : Type 0 where
  pub id_dec : Discrete OrderId
  pub blank_id : OrderId → Bool
  pub is_failed : OrderId → Bool
  pub blank_symbol : S → Bool
  pub adapter : Adapter fl OrderId S W

module _ {fl : FloatOps} {OrderId S W : Type 0} (c : Checker fl OrderId S W) where
  open fl use {F, lit}

  abbrev pub warn : Warning OrderId → Progress fl OrderId S W → Progress fl OrderId S W
  warn message p = record {
    cancelled_rows = p.cancelled_rows;
    actual_qty_map = p.actual_qty_map;
    warnings = p.warnings ++ (message ∷ []);
    world = p.world;
  }

  abbrev pub set_qty : OrderId → Option F → Progress fl OrderId S W → Progress fl OrderId S W
  set_qty id q p = record {
    cancelled_rows = p.cancelled_rows;
    actual_qty_map = put (decided c.id_dec) id q p.actual_qty_map;
    warnings = p.warnings;
    world = p.world;
  }

  abbrev pub at_world : W → Progress fl OrderId S W → Progress fl OrderId S W
  at_world w p = record {
    cancelled_rows = p.cancelled_rows;
    actual_qty_map = p.actual_qty_map;
    warnings = p.warnings;
    world = w;
  }

  abbrev pub add_row : Cancelled OrderId S → Progress fl OrderId S W → Progress fl OrderId S W
  add_row row p = record {
    cancelled_rows = p.cancelled_rows ++ (row ∷ []);
    actual_qty_map = p.actual_qty_map;
    warnings = p.warnings;
    world = p.world;
  }

  -- `actual_qty_map[order_id] = _sum_ccnl_qty(adapter, order_id, warnings)`
  unfoldable pub settle : OrderId → Progress fl OrderId S W → Progress fl OrderId S W
  unfolding ccnl_total
  settle id p =
      let answer = c.adapter.inquire_algo_ccnl id p.world in
      let value = read_ccnl fl answer.0 in
      let asked = at_world answer.1 p in
      if c.adapter.can_inquire
      then set_qty id value.0 (if value.1 then warn (inquiry_empty id) asked else asked)
      else set_qty id none p

  abbrev pub or_failed : Option CancelStatus → CancelStatus
  or_failed none = failed_status
  or_failed (some s) = s

  abbrev pub is_cancelled : CancelStatus → Bool
  is_cancelled cancelled_status = true
  is_cancelled failed_status = false
  is_cancelled already_filled = false
  is_cancelled other_cancel_status = false

  abbrev pub or_unknown : Option Status → Status
  or_unknown none = unknown_status
  or_unknown (some s) = s

  abbrev pub is_executed : Status → Bool
  is_executed filled = true
  is_executed partial_filled = true
  is_executed accepted = false
  is_executed unknown_status = false
  is_executed other_status = false

  abbrev pub note_unknown : OrderId → Status → Progress fl OrderId S W → Progress fl OrderId S W
  note_unknown id unknown_status p = warn (status_unknown id) (set_qty id none p)
  note_unknown id filled p = p
  note_unknown id partial_filled p = p
  note_unknown id accepted p = p
  note_unknown id other_status p = p

  abbrev pub zero_accepted : OrderId → Status → Progress fl OrderId S W → Progress fl OrderId S W
  zero_accepted id accepted p = set_qty id (some (lit 0 1)) p
  zero_accepted id filled p = p
  zero_accepted id partial_filled p = p
  zero_accepted id unknown_status p = p
  zero_accepted id other_status p = p

  abbrev pub cancelled_row : Order OrderId S → Status → CancelStatus → Cancelled OrderId S
  cancelled_row o s d = record { order = o; fill_status = s; cancel_status = d }

  -- after the cancellation: a failed one asks for the status again, since the order may have been
  -- executed in between; the row gets the cancel status that this leaves
  unfoldable pub after_cancel :
      Order OrderId S → Status → CancelStatus → Progress fl OrderId S W → Progress fl OrderId S W
  unfolding settle
  after_cancel o s d p =
      let again = c.adapter.get_order_status o.order_id p.world in
      let asked = at_world again.1 p in
      if is_cancelled d
      then warn (cancel_done o.order_id) (add_row (cancelled_row o s d) p)
      else if is_executed (or_unknown again.0)
      then settle o.order_id
          (add_row (cancelled_row o s already_filled) (warn (already_executed o.order_id) asked))
      else warn (cancel_failed o.order_id) (add_row (cancelled_row o s d) asked)

  unfoldable pub cancel_unfilled :
      Order OrderId S → Status → Progress fl OrderId S W → Progress fl OrderId S W
  unfolding after_cancel
  cancel_unfilled o s p =
      let noted = note_unknown o.order_id s p in
      let answer = c.adapter.cancel_order o.order_id o.symbol o.qty o.side noted.world in
      after_cancel o s (or_failed answer.0) (zero_accepted o.order_id s (at_world answer.1 noted))

  unfoldable pub on_status :
      Order OrderId S → Status → Progress fl OrderId S W → Progress fl OrderId S W
  unfolding settle cancel_unfilled
  on_status o filled p = settle o.order_id p
  on_status o partial_filled p = settle o.order_id (warn (partial_fill o.order_id) p)
  on_status o accepted p = cancel_unfilled o accepted p
  on_status o unknown_status p = cancel_unfilled o unknown_status p
  on_status o other_status p = cancel_unfilled o other_status p

  abbrev pub warn_error :
      OrderId → Option Status → Progress fl OrderId S W → Progress fl OrderId S W
  warn_error id none p = warn (status_error id) p
  warn_error id (some s) p = p

  -- one turn of the loop
  unfoldable pub check_order : Order OrderId S → Progress fl OrderId S W → Progress fl OrderId S W
  unfolding on_status
  check_order o p =
      let answer = c.adapter.get_order_status o.order_id p.world in
      if c.blank_id o.order_id || c.blank_symbol o.symbol
      then p
      else if c.is_failed o.order_id
      then warn (order_failed o.order_id) p
      else on_status o (or_unknown answer.0) (warn_error o.order_id answer.0 (at_world answer.1 p))

  unfoldable pub check_orders :
      List (Order OrderId S) → Progress fl OrderId S W → Progress fl OrderId S W
  unfolding check_order
  check_orders [] p = p
  check_orders (o ∷ os) p = check_orders os (check_order o p)

  abbrev pub start : W → Progress fl OrderId S W
  start w = record { cancelled_rows = []; actual_qty_map = []; warnings = []; world = w }

  unfoldable pub check_and_cancel_unfilled :
      List (Order OrderId S) → ℕ → W → Progress fl OrderId S W
  unfolding check_orders
  check_and_cancel_unfilled [] wait_sec w = start w
  check_and_cancel_unfilled (o ∷ os) wait_sec w =
      if c.adapter.can_cancel
      then check_orders (o ∷ os) (start (if ltb 0 wait_sec then c.adapter.sleep wait_sec w else w))
      else warn no_cancel_support (start w)

  abbrev pub flatten : Option (Option F) → Option F
  flatten none = none
  flatten (some q) = q

  -- the new column of the fills: a missing key and `None` are both NaN
  unfoldable pub update_fills : List OrderId → Progress fl OrderId S W → List (OrderId × Option F)
  update_fills [] p = []
  update_fills (id ∷ ids) p =
      (id, flatten (get (decided c.id_dec) id p.actual_qty_map)) ∷ update_fills ids p
