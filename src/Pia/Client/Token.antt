-- ===== src/Pia/Client/Token.antt =====
-- When the client asks for a token, and when it gives one up.
use piaproxy.Base.{
  if-cases, ◌==◌, ℕ, ◌+◌, ◌≡◌, ◌≢◌, refl, Bool, false, Option, none, some, [], if◌then◌else◌, arith,
  length, get_elem?, Bytes, str_eq_iff,
}
use piaproxy.Base.Result.{Result, ok, err}
use piaproxy.Pia.Http.{PiaError, is_auth_error}
use piaproxy.Pia.Regions.{ServerEndpoint, Region}
use piaproxy.Pia.Client.{
  with_server, with_index, Pia, Api, WgSession, token, token_answer, invalidate_token,
  new_session_with_server, new_session,
}

-- The call ended with an AuthError.
abbrev pub is_rejected : {A : Type 0} → Result PiaError A → Bool
is_rejected (ok _) = false
is_rejected (err e) = is_auth_error e

-- What becomes of a cached token, and of the number of requests to the token endpoint.
pub record KeepsToken (p : Pia) (r : Result PiaError WgSession × Pia) : Type 0 where
  pub no_request : r.1.token_calls ≡ p.token_calls
  pub token : r.1.token ≡ (if is_rejected r.0 then [] else p.token)
  pub acquired : r.1.token_acquired_at ≡ (if is_rejected r.0 then none else p.token_acquired_at)

module _ (api : Api) where
  -- With a token cached, NewSessionWithServer asks for no token, and drops the cached one, with
  -- its time, if the call ends with an AuthError and only then.
  pub new_session_with_server-KeepsToken :
      (region : Region) (server : ServerEndpoint) (p : Pia)
      → p.token ≢ []
      → KeepsToken p (new_session_with_server api region server p)
  unfolding new_session_with_server token invalidate_token is_auth_error
  new_session_with_server-KeepsToken region server p h = ground (arith, str_eq_iff p.token [])

  with_server-KeepsToken :
      (region : Region) (server : Option ServerEndpoint) (p : Pia)
      → p.token ≢ []
      → KeepsToken p (with_server api region server p)
  unfolding is_auth_error
  with_server-KeepsToken region none p h = record {
    no_request = refl;
    token = refl;
    acquired = refl;
  }
  with_server-KeepsToken region (some s) p h = new_session_with_server-KeepsToken region s p h

  with_index-KeepsToken :
      (region : Region) (index : Option ℕ) (p : Pia)
      → p.token ≢ []
      → KeepsToken p (with_index api region index p)
  unfolding is_auth_error
  with_index-KeepsToken region none p h = record {
    no_request = refl;
    token = refl;
    acquired = refl;
  }
  with_index-KeepsToken region (some i) p h =
      with_server-KeepsToken region (get_elem? region.wireguard_servers i) p h

  -- With a token cached, NewSession asks for no token, and drops the cached one, with its time, if
  -- the call ends with an AuthError and only then.
  pub new_session-KeepsToken :
      (region : Region) (p : Pia) → p.token ≢ [] → KeepsToken p (new_session api region p)
  unfolding new_session is_auth_error
  new_session-KeepsToken region p h =
      let drawn = record p { random_calls = p.random_calls + 1 } in
      let n = length region.wireguard_servers in
      let k = with_index-KeepsToken region (api.random p.random_calls n) drawn h in
      if-cases (KeepsToken p) (n == 0)
        (λ _. record { no_request = refl; token = refl; acquired = refl })
        (λ _. record { no_request = k.no_request; token = k.token; acquired = k.acquired })

  -- With no token cached and a key pair generated, NewSessionWithServer asks for exactly one
  -- token, and afterwards the client holds that token if there was one and the call did not end
  -- with an AuthError, and none otherwise.
  pub new_session_with_server-fetches :
      (region : Region) (server : ServerEndpoint) (p : Pia) (keys : Bytes × Bytes)
      → p.token ≡ []
      → api.key_pair p.key_calls ≡ some keys
      → let r = new_session_with_server api region server p in
        (r.1.token_calls ≡ p.token_calls + 1)
        × (r.1.token ≡ (
            if is_rejected r.0
            then []
            else elim (token_answer api (api.token_reply p.token_calls p.username p.password)) [
              | ok t ↦ t
              | err e ↦ []
            ]))
  unfolding new_session_with_server token invalidate_token
  new_session_with_server-fetches region server p keys h k = ground (arith, str_eq_iff p.token [])
