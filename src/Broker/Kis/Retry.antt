-- ===== src/Broker/Kis/Retry.antt =====
-- How often an inquiry of an order's fills asks the service, with src/pretrend/pipeline/broker/kis_mock.py.
use pretrend_ai.Base.{
  ℕ, suc, ◌+◌, ◌≤◌, ◌&&◌, not, Option, none, some, arith, Bool, true, false, if_cases,
  if◌then◌else◌,
}
use pretrend_ai.Base.Float.{FloatOps}
use pretrend_ai.Broker.Kis.{
  Response, Issued, TokenState, CacheEntry, Client, Config, save_cached_token, is_fresh, or_dry,
  on_issued, refresh, ensure_token, is_auth_error, send, send_with, forget, retry,
  request_with_auth_retry, with_headers, ccnl_response,
}

-- What was asked: the requests, with their answers, and the tokens.
pub record Tally (W : Type 0) : Type 0 where
  pub requests : ℕ
  pub tokens : ℕ
  pub inner : W

module _ {fl : FloatOps} {A K R W : Type 0} where
  -- The client whose session also counts what it is asked.
  abbrev pub counted : Config fl A K R W → Config fl A K R (Tally W)
  counted c = record {
    session = record {
      time = λ w. let r = c.session.time w.inner in (r.0, record w { inner = r.1 });
      post_token = λ w.
          let r = c.session.post_token w.inner in
          (r.0, record w { inner = r.1; tokens = w.tokens + 1 });
      request = λ a w.
          let r = c.session.request a w.inner in
          (r.0, record w { inner = r.1; requests = w.requests + 1 });
    };
    dry_run = c.dry_run;
    dry_run_token = c.dry_run_token;
    app_key = c.app_key;
    same_key = c.same_key;
    blank = c.blank;
    can_write = c.can_write;
  }

module _ {fl : FloatOps} {A K R W : Type 0} (c : Config fl A K R W) where
  abbrev S : Type 0
  S = Client fl A K (Tally W)

  -- At most n requests and m issued tokens.
  unfoldable Asked : ℕ → ℕ → S → Type 0
  Asked n m s = (s.world.requests ≤ n) × (s.world.tokens ≤ m)

  save-Asked : (n m : ℕ) (s : S) → Asked n m s → Asked n m (save_cached_token (counted c) s)
  unfolding save_cached_token Asked
  save-Asked n m s h = if_cases (Asked n m) c.can_write _ s (λ e. h) (λ e. h)

  on_issued-Asked :
      (n m : ℕ) (now : fl.F) (answer : Option (Issued fl A)) (s : S)
      → Asked n m s
      → Asked n m (on_issued (counted c) now answer s).1
  unfolding Asked
  on_issued-Asked n m now none s h = h
  on_issued-Asked n m now (some i) s h =
      if_cases (λ (r : Option A × S). Asked n m r.1) (c.blank i.access_token) (none, s) _ (λ e. h)
        (λ e. save-Asked n m _ h)

  more-Asked : (n m : ℕ) (s : S) → Asked n m s → Asked n (suc m) s
  unfolding Asked
  more-Asked n m s h = omega (arith, h)

  refresh-Asked :
      (n m : ℕ) (now : fl.F) (s : S) → Asked n m s → Asked n (suc m) (refresh (counted c) now s).1
  refresh-Asked n m now s h =
      let answer = c.session.post_token s.world.inner in
      let asked = record s {
        world = record s.world { inner = answer.1; tokens = s.world.tokens + 1 };
      } in
      on_issued-Asked n (suc m) now answer.0 asked (unfold Asked in omega (arith, h))

  ensure-Asked : (n m : ℕ) (s : S) → Asked n m s → Asked n (suc m) (ensure_token (counted c) s).1
  unfolding ensure_token
  ensure-Asked n m s h =
      let now = c.session.time s.world.inner in
      let seen = record s { world = record s.world { inner = now.1 } } in
      let Kept = λ (r : Option A × S). Asked n (suc m) r.1 in
      if_cases Kept c.dry_run (some c.dry_run_token, s) _ (λ e. more-Asked n m s h)
        (λ e.
          if_cases Kept (is_fresh (counted c) s.token.access_token s.token.expires_at_epoch now.0)
            (some (or_dry (counted c) s.token.access_token), seen) (refresh (counted c) now.0 seen)
            (λ f. more-Asked n m seen (unfold Asked in h))
            (λ f. refresh-Asked n m now.0 seen (unfold Asked in h)))

  send-Asked :
      (n m : ℕ) (token : A) (s : S) → Asked n m s → Asked (suc n) m (send (counted c) token s).1
  unfolding Asked
  send-Asked n m token s h = omega (arith, h)

  send_with-Asked :
      (n m : ℕ) (r : Option A × S) → Asked n m r.1 → Asked (suc n) m (send_with (counted c) r).1
  unfolding Asked
  send_with-Asked n m (none, s) h = omega (arith, h)
  send_with-Asked n m (some token, s) h = send-Asked n m token s h

  retry-Asked :
      (n m : ℕ) (r : Option (Response R) × S)
      → Asked n m r.1
      → Asked (suc n) (suc m) (retry (counted c) r).1
  unfolding Asked
  retry-Asked n m (none, s) h = omega (arith, h)
  retry-Asked n m (some r, s) h =
      let from = forget (counted c) r.status_code s in
      if_cases (λ (q : Option (Response R) × S). Asked (suc n) (suc m) q.1)
        (is_auth_error (counted c) r.status_code && not c.dry_run)
        (send_with (counted c) (ensure_token (counted c) from)) (some r, s)
        (λ e. send_with-Asked n (suc m) (ensure_token (counted c) from) (ensure-Asked n m from h))
        (λ e. omega (arith, h))

  headers-Asked :
      (n m : ℕ) (r : Option A × S)
      → Asked n m r.1
      → Asked (suc (suc n)) (suc m) (with_headers (counted c) r).1
  unfolding request_with_auth_retry Asked
  headers-Asked n m (none, s) h = omega (arith, h)
  headers-Asked n m (some token, s) h =
      retry-Asked (suc n) m (send (counted c) token s) (send-Asked n m token s h)

  -- The client before it has asked for anything.
  abbrev pub unasked :
      TokenState fl A → Option (CacheEntry fl A K) → ℕ → Option ℕ → W → Client fl A K (Tally W)
  unasked token cache refreshes error w = record {
    token = token;
    refresh_count = refreshes;
    last_auth_error = error;
    cache = cache;
    world = record { requests = 0; tokens = 0; inner = w };
  }

  -- At most two requests and two tokens, and none of either in a dry run.
  abbrev pub Sparing : Bool → Tally W → Type 0
  Sparing true t = (t.requests ≤ 0) × (t.tokens ≤ 0)
  Sparing false t = (t.requests ≤ 2) × (t.tokens ≤ 2)

  unless_dry :
      (dry : Bool) (s : S) (r : Option (Response R) × S)
      → Sparing true s.world
      → Asked 2 2 r.1
      → Sparing dry (if dry then (none, s) else r).1.world
  unfolding Asked
  unless_dry true s r h k = h
  unless_dry false s r h k = k

  -- Whatever the service answers, one inquiry of an order's fills sends at most two requests for them and
  -- asks for at most two tokens, and in a dry run it does neither.
  pub inquiry_requests_at_most_two :
      (token : TokenState fl A) (cache : Option (CacheEntry fl A K)) (refreshes : ℕ)
      (error : Option ℕ) (w : W)
      → Sparing c.dry_run
          (ccnl_response (counted c) (unasked token cache refreshes error w)).1.world
  unfolding ccnl_response
  inquiry_requests_at_most_two token cache refreshes error w =
      let s = unasked token cache refreshes error w in
      unless_dry c.dry_run s (with_headers (counted c) (ensure_token (counted c) s)) (omega arith) (
        headers-Asked 0 1 (ensure_token (counted c) s)
          (ensure-Asked 0 0 s (unfold Asked in omega arith)))
