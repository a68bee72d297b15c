-- ===== src/Broker/Kis/Reload.antt =====
-- The token survives a restart of the client.
use pretrend_ai.Base.{true, false, ◌≡◌, refl, none, some}
use pretrend_ai.Base.Float.{FloatOps}
use pretrend_ai.Broker.Kis.{Client, Config, no_token, save_cached_token, load_cached_token}

module _ {fl : FloatOps} {A K R W : Type 0} (c : Config fl A K R W) where
  -- a client that starts anew on the cache that another one left
  abbrev pub restarted : Client fl A K W → Client fl A K W
  restarted s = record {
    token = no_token c;
    refresh_count = 0;
    last_auth_error = none;
    cache = s.cache;
    world = s.world;
  }

  -- A token that is not empty and was saved is, before it expires, the one that a new client with the same key
  -- loads, with its expiry.
  pub reload_saved_token :
      (s : Client fl A K W) (a : A)
      → c.can_write ≡ true
      → c.same_key c.app_key c.app_key ≡ true
      → s.token.access_token ≡ some a
      → c.blank a ≡ false
      → fl.lt (c.session.time s.world).0 s.token.expires_at_epoch ≡ true
      → (load_cached_token c (restarted (save_cached_token c s))).token ≡ s.token
  unfolding load_cached_token save_cached_token
  reload_saved_token s a w k e b l =
      rw (load_cached_token, save_cached_token, w, e, b, k, l, b) refl
