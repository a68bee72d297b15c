-- ===== src/Broker/CancelSafety.antt =====
-- When an order is cancelled: the calls that the check makes, recorded in the world of the adapter.
use mathlib.Core.Path.{subst}
use pretrend_ai.Base.{
  ℕ, Bool, true, false, ◌≡◌, refl, ◌||◌, Option, none, some, List, [], ◌∷◌, if◌then◌else◌, ltb, not,
  ap, sym, Bool-cases, inl, inr,
}
use pretrend_ai.Base.Float.{FloatOps}
use pretrend_ai.Broker.Adapter.{
  Status, filled, partial_filled, accepted, unknown_status, other_status, CancelStatus,
  already_filled,
}
use pretrend_ai.Broker.Unfilled.{
  Checker, Order, Progress, settle, after_cancel, cancel_unfilled, on_status, check_order,
  check_orders, check_and_cancel_unfilled, is_executed, or_unknown, is_cancelled, or_failed, start,
  warn_error, at_world, warn, add_row, cancelled_row, note_unknown, zero_accepted, already_executed,
  read_ccnl, no_cancel_support,
}

pub data Call (OrderId : Type 0) : Type 0 where
  asked : OrderId → Option Status → Call OrderId
  cancelling : OrderId → Call OrderId
  inquired : OrderId → Call OrderId

module _ {fl : FloatOps} {OrderId S W : Type 0} where
  -- The checker whose adapter also writes down each call, the latest first.
  abbrev pub traced : Checker fl OrderId S W → Checker fl OrderId S (W × List (Call OrderId))
  traced c = record {
    id_dec = c.id_dec;
    blank_id = c.blank_id;
    is_failed = c.is_failed;
    blank_symbol = c.blank_symbol;
    adapter = record {
      can_cancel = c.adapter.can_cancel;
      can_inquire = c.adapter.can_inquire;
      sleep = λ n w. (c.adapter.sleep n w.0, w.1);
      get_order_status =
          λ id w. let r = c.adapter.get_order_status id w.0 in (r.0, (r.1, asked id r.0 ∷ w.1));
      cancel_order = λ id s q side w.
          let r = c.adapter.cancel_order id s q side w.0 in (r.0, (r.1, cancelling id ∷ w.1));
      inquire_algo_ccnl =
          λ id w. let r = c.adapter.inquire_algo_ccnl id w.0 in (r.0, (r.1, inquired id ∷ w.1));
    };
  }

abbrev executed_status : Status → Bool
executed_status filled = true
executed_status partial_filled = true
executed_status accepted = false
executed_status unknown_status = false
executed_status other_status = false

-- The inquiry did not say FILLED or PARTIAL_FILLED: it said something else, or it raised an exception and
-- there is no answer, which the code takes as UNKNOWN.
abbrev pub not_told_executed : Option Status → Bool
not_told_executed none = true
not_told_executed (some s) = not (executed_status s)

module _ (OrderId : Type 0) where
  -- A cancellation follows at once on an inquiry for the same order that did not say it was executed.
  abbrev pub Permitted : Call OrderId → List (Call OrderId) → Type 0
  Permitted (asked i a) log = Unit
  Permitted (inquired i) log = Unit
  Permitted (cancelling i) [] = false ≡ true
  Permitted (cancelling i) (asked j a ∷ log) = (j ≡ i) × (not_told_executed a ≡ true)
  Permitted (cancelling i) (cancelling j ∷ log) = false ≡ true
  Permitted (cancelling i) (inquired j ∷ log) = false ≡ true

  unfoldable pub Guarded : List (Call OrderId) → Type 0
  Guarded [] = Unit
  Guarded (call ∷ log) = Permitted call log × Guarded log

module _ {fl : FloatOps} {OrderId S W : Type 0} (c : Checker fl OrderId S W) where
  abbrev P : Type 0
  P = Progress fl OrderId S (W × List (Call OrderId))

  settle-Guarded :
      (id : OrderId) (p : P)
      → Guarded OrderId p.world.1
      → Guarded OrderId (settle (traced c) id p).world.1
  unfolding settle Guarded
  settle-Guarded id p h = elim (Bool-cases c.adapter.can_inquire) [
    | inl e ↦
        let value = read_ccnl fl (c.adapter.inquire_algo_ccnl id p.world.0).0 in
        elim (Bool-cases value.1) [ inl k ↦ rw (e, k) (tt, h) | inr k ↦ rw (e, k) (tt, h) ]
    | inr e ↦ rw e h
  ]

  after_cancel-Guarded :
      (o : Order OrderId S) (s : Status) (d : CancelStatus) (p : P)
      → Guarded OrderId p.world.1
      → Guarded OrderId (after_cancel (traced c) o s d p).world.1
  unfolding after_cancel Guarded
  after_cancel-Guarded o s d p h =
      let again = c.adapter.get_order_status o.order_id p.world.0 in
      let seen = at_world (traced c) (again.1, asked o.order_id again.0 ∷ p.world.1) p in
      let row = cancelled_row (traced c) o s already_filled in
      let settled = add_row (traced c) row (warn (traced c) (already_executed o.order_id) seen) in
      elim (Bool-cases (is_cancelled (traced c) d)) [
        | inl e ↦ rw e h
        | inr e ↦ elim (Bool-cases (is_executed (traced c) (or_unknown (traced c) again.0))) [
          | inl k ↦ rw (e, k) (settle-Guarded o.order_id settled (tt, h))
          | inr k ↦ rw (e, k) (tt, h)
        ]
      ]

  noted_world :
      (id : OrderId) (s : Status) (p : P) → (note_unknown (traced c) id s p).world ≡ p.world
  noted_world id filled p = refl
  noted_world id partial_filled p = refl
  noted_world id accepted p = refl
  noted_world id unknown_status p = refl
  noted_world id other_status p = refl

  zeroed_world :
      (id : OrderId) (s : Status) (p : P) → (zero_accepted (traced c) id s p).world ≡ p.world
  zeroed_world id filled p = refl
  zeroed_world id partial_filled p = refl
  zeroed_world id accepted p = refl
  zeroed_world id unknown_status p = refl
  zeroed_world id other_status p = refl

  cancel_unfilled-Guarded :
      (o : Order OrderId S) (s : Status) (p : P)
      → Permitted OrderId (cancelling o.order_id) p.world.1
      → Guarded OrderId p.world.1
      → Guarded OrderId (cancel_unfilled (traced c) o s p).world.1
  unfolding cancel_unfilled Guarded
  cancel_unfilled-Guarded o s p k h =
      let noted = note_unknown (traced c) o.order_id s p in
      let answer = c.adapter.cancel_order o.order_id o.symbol o.qty o.side noted.world.0 in
      let seen = at_world (traced c) (answer.1, cancelling o.order_id ∷ noted.world.1) noted in
      let e = ap (λ w. w.1) (noted_world o.order_id s p) in
      let f = ap (λ w. w.1) (zeroed_world o.order_id s seen) in
      after_cancel-Guarded o s (or_failed (traced c) answer.0)
        (zero_accepted (traced c) o.order_id s seen)
        (subst (Guarded OrderId) (sym f) (
          subst (λ l. Permitted OrderId (cancelling o.order_id) l) (sym e) k,
          subst (Guarded OrderId) (sym e) h,
        ))

  on_answer-Guarded :
      (o : Order OrderId S) (answer : Option Status) (p : P) (log : List (Call OrderId))
      → p.world.1 ≡ asked o.order_id answer ∷ log
      → Guarded OrderId p.world.1
      → Guarded OrderId (on_status (traced c) o (or_unknown (traced c) answer) p).world.1
  unfolding on_status
  on_answer-Guarded o none p log e h =
      cancel_unfilled-Guarded o unknown_status p (rw e (refl, refl)) h
  on_answer-Guarded o (some filled) p log e h = settle-Guarded o.order_id p h
  on_answer-Guarded o (some partial_filled) p log e h = settle-Guarded o.order_id _ h
  on_answer-Guarded o (some accepted) p log e h =
      cancel_unfilled-Guarded o accepted p (rw e (refl, refl)) h
  on_answer-Guarded o (some unknown_status) p log e h =
      cancel_unfilled-Guarded o unknown_status p (rw e (refl, refl)) h
  on_answer-Guarded o (some other_status) p log e h =
      cancel_unfilled-Guarded o other_status p (rw e (refl, refl)) h

  warned_world :
      (id : OrderId) (answer : Option Status) (p : P)
      → (warn_error (traced c) id answer p).world ≡ p.world
  warned_world id none p = refl
  warned_world id (some s) p = refl

  check_order-Guarded :
      (o : Order OrderId S) (p : P)
      → Guarded OrderId p.world.1
      → Guarded OrderId (check_order (traced c) o p).world.1
  unfolding check_order Guarded
  check_order-Guarded o p h =
      let answer = c.adapter.get_order_status o.order_id p.world.0 in
      let seen = at_world (traced c) (answer.1, asked o.order_id answer.0 ∷ p.world.1) p in
      let e = ap (λ w. w.1) (warned_world o.order_id answer.0 seen) in
      elim (Bool-cases (c.blank_id o.order_id || c.blank_symbol o.symbol)) [
        | inl b ↦ rw b h
        | inr b ↦ elim (Bool-cases (c.is_failed o.order_id)) [
          | inl f ↦ rw (b, f) h
          | inr f ↦
              rw (b, f)
                (on_answer-Guarded o answer.0 (warn_error (traced c) o.order_id answer.0 seen)
                  p.world.1 e (subst (Guarded OrderId) (sym e) (tt, h)))
        ]
      ]

  check_orders-Guarded :
      (os : List (Order OrderId S)) (p : P)
      → Guarded OrderId p.world.1
      → Guarded OrderId (check_orders (traced c) os p).world.1
  unfolding check_orders
  check_orders-Guarded [] p h = h
  check_orders-Guarded (o ∷ os) p h =
      check_orders-Guarded os (check_order (traced c) o p) (check_order-Guarded o p h)

  choose :
      (b : Bool) (x y : P)
      → Guarded OrderId x.world.1
      → Guarded OrderId y.world.1
      → Guarded OrderId (if b then x else y).world.1
  choose true x y h k = h
  choose false x y h k = k

  asleep :
      (b : Bool) (n : ℕ) (w : W)
      → let slept : W × List (Call OrderId) = if b then (c.adapter.sleep n w, []) else (w, []) in
        Guarded OrderId slept.1
  unfolding Guarded
  asleep true n w = tt
  asleep false n w = tt

  -- Whatever the broker answers, the check requests a cancellation only directly after it inquired the
  -- status of the same order, and only if that inquiry did not answer FILLED or PARTIAL_FILLED: it answered
  -- another status, or it raised an exception and gave no answer.
  pub cancels_only_after_inquiry :
      (orders : List (Order OrderId S)) (wait_sec : ℕ) (w : W)
      → Guarded OrderId (check_and_cancel_unfilled (traced c) orders wait_sec (w, [])).world.1
  unfolding check_and_cancel_unfilled Guarded
  cancels_only_after_inquiry [] wait_sec w = tt
  cancels_only_after_inquiry (o ∷ os) wait_sec w =
      let from =
        start (traced c) (if ltb 0 wait_sec then (c.adapter.sleep wait_sec w, []) else (w, [])) in
      choose c.adapter.can_cancel (check_orders (traced c) (o ∷ os) from)
        (warn (traced c) no_cancel_support (start (traced c) (w, [])))
        (check_orders-Guarded (o ∷ os) from (asleep (ltb 0 wait_sec) wait_sec w)) tt
