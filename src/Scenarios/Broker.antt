-- ===== src/Scenarios/Broker.antt =====
-- The check of unfilled orders against a concrete broker, whose world counts the calls.
use pretrend_ai.Base.{
  ℕ, ◌+◌, ◌≡◌, refl, Bool, true, false, ◌&&◌, any, arith, ◌==◌, some, [], ◌∷◌, decided,
  if◌then◌else◌,
}
use pretrend_ai.Base.Float.{decimal}
use pretrend_ai.Backtest.Portfolio.{bought}
use pretrend_ai.Broker.Adapter.{Adapter, accepted, filled, failed_status}
use pretrend_ai.Broker.Unfilled.{Checker, Order, check_and_cancel_unfilled}
use pretrend_ai.Broker.CancelSafety.{Guarded, traced, cancels_only_after_inquiry}
use pretrend_ai.Broker.Coverage.{looked_at, covered, no_order_forgotten}

Bool-discrete : Discrete Bool
Bool-discrete = hlevel

-- accepted at first, filled when asked again; every cancellation fails
abbrev broker : Adapter decimal Bool ℕ ℕ
broker = record {
  can_cancel = true;
  can_inquire = true;
  sleep = λ n w. w;
  get_order_status = λ id w. (some (if w == 0 then accepted else filled), w + 1);
  cancel_order = λ id s q side w. (some failed_status, w + 1);
  inquire_algo_ccnl = λ id w. (some [], w + 1);
}

abbrev order : Order Bool ℕ
order = record { order_id = true; symbol = 1; side = bought; qty = 3 }

abbrev no_id : Bool → Bool
no_id b = false

abbrev never : ℕ → Bool
never n = false

abbrev checker : Checker decimal Bool ℕ ℕ
checker = record {
  id_dec = Bool-discrete;
  blank_id = no_id;
  is_failed = no_id;
  blank_symbol = never;
  adapter = broker;
}

named : any (λ o. decided Bool-discrete o.order_id true && looked_at checker o) (order ∷ []) ≡ true
named = grind arith

cancels_only_after_inquiry_example :
    Guarded Bool (check_and_cancel_unfilled (traced checker) (order ∷ []) 30 (0, [])).world.1
cancels_only_after_inquiry_example = cancels_only_after_inquiry checker (order ∷ []) 30 0

no_order_forgotten_example :
    covered checker true (check_and_cancel_unfilled checker (order ∷ []) 30 0) ≡ true
no_order_forgotten_example = no_order_forgotten checker true (order ∷ []) 30 0 refl named
