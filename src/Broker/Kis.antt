-- ===== src/Broker/Kis.antt =====
-- src/pretrend/pipeline/broker/kis_mock.py: the access token of the client, its cache on disk, and the retry of a
-- request. The session and the clock are parameters over the outside world, `none` for an exception;
-- the file is a value, `none` when it is missing or does not parse.
pub mod Reload
pub mod Retry
use pretrend_ai.Base.{
  ℕ, suc, ◌+◌, Bool, true, false, ◌&&◌, ◌||◌, not, ◌==◌, Option, none, some, List, [], ◌∷◌,
  if◌then◌else◌,
}
use pretrend_ai.Base.Float.{FloatOps}

-- `A` is the type of tokens, `K` of application keys, `R` of the body of a response.
pub record Response (R : Type 0) : Type 0 where
  pub status_code : ℕ
  pub body : R

-- The body of an issued token: the token and its lifetime.
pub record Issued (fl : FloatOps) (A : Type 0) : Type 0 where
  pub access_token : A
  pub expires_in : fl.F

pub record Session (fl : FloatOps) (A R W : Type 0) : Type 0 where
  pub time : W → fl.F × W
  pub post_token : W → Option (Issued fl A) × W
  pub request : A → W → Option (Response R) × W

pub record TokenState (fl : FloatOps) (A : Type 0) : Type 0 where
  pub access_token : Option A
  pub expires_at_epoch : fl.F

pub record CacheEntry (fl : FloatOps) (A K : Type 0) : Type 0 where
  pub app_key : K
  pub access_token : A
  pub expires_at_epoch : fl.F

pub record Client (fl : FloatOps) (A K W : Type 0) : Type 0 where
  pub token : TokenState fl A
  pub refresh_count : ℕ
  pub last_auth_error : Option ℕ
  pub cache : Option (CacheEntry fl A K)
  pub world : W

-- What does not change: `blank` tests for the empty token, and `can_write` whether the disk takes the file.
pub record Config (fl : FloatOps) (A K R W : Type 0) : Type 0 where
  pub session : Session fl A R W
  pub dry_run : Bool
  pub dry_run_token : A
  pub app_key : K
  pub same_key : K → K → Bool
  pub blank : A → Bool
  pub can_write : Bool

module _ {fl : FloatOps} {A K R W : Type 0} (c : Config fl A K R W) where
  open fl use {F, lit, of_int, add, sub, lt}

  abbrev pub C : Type 0
  C = Client fl A K W

  abbrev pub no_token : TokenState fl A
  no_token = record { access_token = none; expires_at_epoch = lit 0 1 }

  abbrev pub at_world : W → C → C
  at_world w s = record s { world = w }

  -- the entry that `_save_cached_token` writes; without a token it writes nothing
  abbrev pub entry_of : Option A → F → Option (CacheEntry fl A K) → Option (CacheEntry fl A K)
  entry_of none expires cache = cache
  entry_of (some a) expires cache =
      if c.blank a
      then cache
      else some (record { app_key = c.app_key; access_token = a; expires_at_epoch = expires })

  unfoldable pub save_cached_token : C → C
  save_cached_token s =
      if c.can_write
      then record s { cache = entry_of s.token.access_token s.token.expires_at_epoch s.cache }
      else s

  abbrev pub take_entry : Option (CacheEntry fl A K) → F → C → C
  take_entry none now s = s
  take_entry (some e) now s =
      if c.same_key e.app_key c.app_key
        && (not (c.blank e.access_token) && lt now e.expires_at_epoch)
      then record s {
        token = record {
          access_token = some e.access_token;
          expires_at_epoch = e.expires_at_epoch;
        };
      }
      else s

  -- the clock is read in any case, and nothing else of the outside world
  unfoldable pub load_cached_token : C → C
  load_cached_token s =
      let now = c.session.time s.world in take_entry s.cache now.0 (at_world now.1 s)

  abbrev pub is_fresh : Option A → F → F → Bool
  is_fresh none expires now = false
  is_fresh (some a) expires now = not (c.blank a) && lt now (sub expires (lit 300 0))

  abbrev pub or_dry : Option A → A
  or_dry none = c.dry_run_token
  or_dry (some a) = a

  abbrev pub issued : F → Issued fl A → C → C
  issued now i s = save_cached_token (record s {
    token = record { access_token = some i.access_token; expires_at_epoch = add now i.expires_in };
    refresh_count = s.refresh_count + 1;
    last_auth_error = none;
  })

  -- an empty token is an error
  abbrev pub on_issued : F → Option (Issued fl A) → C → Option A × C
  on_issued now none s = (none, s)
  on_issued now (some i) s =
      if c.blank i.access_token then (none, s) else (some i.access_token, issued now i s)

  abbrev pub refresh : F → C → Option A × C
  refresh now s =
      let answer = c.session.post_token s.world in on_issued now answer.0 (at_world answer.1 s)

  unfoldable pub ensure_token : C → Option A × C
  unfolding save_cached_token
  ensure_token s =
      let now = c.session.time s.world in
      let seen = at_world now.1 s in
      if c.dry_run
      then (some c.dry_run_token, s)
      else if is_fresh s.token.access_token s.token.expires_at_epoch now.0
      then (some (or_dry s.token.access_token), seen)
      else refresh now.0 seen

  abbrev pub is_auth_error : ℕ → Bool
  is_auth_error code = code == 401 || code == 403

  abbrev pub send : A → C → Option (Response R) × C
  send token s = let r = c.session.request token s.world in (r.0, at_world r.1 s)

  abbrev pub send_with : Option A × C → Option (Response R) × C
  send_with (none, s) = (none, s)
  send_with (some token, s) = send token s

  abbrev pub forget : ℕ → C → C
  forget code s = record s { token = no_token; last_auth_error = some code }

  -- after a first response: an authorization error is answered by one more request, with a new token
  abbrev pub retry : Option (Response R) × C → Option (Response R) × C
  retry (none, s) = (none, s)
  retry (some r, s) =
      if is_auth_error r.status_code && not c.dry_run
      then send_with (ensure_token (forget r.status_code s))
      else (some r, s)

  -- `_request_with_auth_retry`, with the headers made for it
  unfoldable pub request_with_auth_retry : A → C → Option (Response R) × C
  unfolding ensure_token
  request_with_auth_retry token s = retry (send token s)

  -- the headers, which need a token, then the request
  abbrev pub with_headers : Option A × C → Option (Response R) × C
  with_headers (none, s) = (none, s)
  with_headers (some token, s) = request_with_auth_retry token s

  -- The response that `_inquire_algo_ccnl` reads its rows from; a dry run asks for none. The wait between two
  -- requests is left out.
  unfoldable pub ccnl_response : C → Option (Response R) × C
  unfolding ensure_token request_with_auth_retry
  ccnl_response s = if c.dry_run then (none, s) else with_headers (ensure_token s)
