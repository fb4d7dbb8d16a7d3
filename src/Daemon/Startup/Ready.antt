-- ===== src/Daemon/Startup/Ready.antt =====
-- What the daemon has done when it starts its proxies, or gives up.
use piaproxy.Base.{
  ℕ, ◌≡◌, ◌≢◌, refl, none, some, List, [], ◌∷◌, Bytes, codes, str_eq, str_eq_iff, arith, if-cases,
  inl, inr, ◌||◌,
}
use piaproxy.Base.Int.{pos}
use piaproxy.Base.Result.{Result, ok, err, Result-cases}
use piaproxy.Net.{NetError}
use piaproxy.Pia.Http.{PiaError, HttpReply}
use piaproxy.Pia.Regions.{Region, fetch_server_list}
use piaproxy.Pia.Client.{Api, Pia, token, token_answer, regions}
use piaproxy.Pia.Certificate.{CertError}
use piaproxy.Tunnel.{CityConfig}
use piaproxy.Daemon.{NameText, env_or, env_or_int, build_city_list, filter_unknown_regions}
use piaproxy.Daemon.Cities.{Filtered, filter_unknown_regions-Filtered}
use piaproxy.Daemon.Startup.{
  Environment, Fatal, credentials_missing, cert_unreadable, no_cities, auth_failed,
  server_list_failed, no_known_cities, new_pia_client, is_empty, with_regions, with_token, warm_up,
  with_cert, start_up,
}

-- How many tokens and lists were asked for.
abbrev pub Asked : ℕ → ℕ → Pia → Type 0
Asked tokens lists p = (p.token_calls ≡ tokens) × (p.list_calls ≡ lists)

-- The cities to run: those of the list made from the environment whose region the client was told
-- of, with a token and the regions cached after one request for each.
pub record IsReady (text : NameText) (configured cities : List CityConfig) (p : Pia) : Type 0 where
  pub some_city : cities ≢ []
  pub known : (rs : List Region) × (p.regions ≡ some rs) × Filtered text rs configured cities
  pub token : p.token ≢ []
  pub asked : Asked 1 1 p

-- What main has asked for when it ends with a message.
abbrev pub Outcome : NameText → List CityConfig → Result Fatal (List CityConfig) × Pia → Type 0
Outcome text configured (ok cities, p) = IsReady text configured cities p
Outcome text configured (err credentials_missing, p) = Asked 0 0 p
Outcome text configured (err (cert_unreadable _ _), p) = Asked 0 0 p
Outcome text configured (err no_cities, p) = Asked 0 0 p × (configured ≡ [])
Outcome text configured (err (auth_failed _), p) = Asked 1 0 p × (p.token ≡ [])
Outcome text configured (err (server_list_failed _), p) = Asked 1 1 p × (p.token ≢ [])
Outcome text configured (err no_known_cities, p) = Asked 1 1 p × (p.token ≢ [])

-- A client that nothing was asked of.
abbrev pub Fresh : Pia → Type 0
Fresh p = (p.token ≡ []) × (p.regions ≡ none) × Asked 0 0 p

module _ (text : NameText) (api : Api) where
  abbrev pub Fetched : Result PiaError Bytes × Pia → Type 0
  Fetched (ok _, p) = (p.token ≢ []) × (p.regions ≡ none) × Asked 1 0 p
  Fetched (err _, p) = (p.token ≡ []) × Asked 1 0 p

  token_answer-nonempty :
      (r : Result NetError HttpReply) (t : Bytes) → token_answer api r ≡ ok t → t ≢ []
  unfolding token_answer str_eq
  token_answer-nonempty (err e) t h = cc
  token_answer-nonempty (ok r) [] h = ground arith
  token_answer-nonempty (ok r) (x ∷ t) h = cc

  token-Fetched : (p : Pia) → Fresh p → Fetched (token api p)
  unfolding token
  token-Fetched p fresh =
      let reply = api.token_reply p.token_calls p.username p.password in
      let empty = (str_eq_iff p.token []).1 fresh.0 in
      rw empty (elim (Result-cases (token_answer api reply)) [
        | inl (t, e) ↦ rw e (token_answer-nonempty reply t e, fresh.1, (omega arith, fresh.2.1))
        | inr (x, e) ↦ rw e (fresh.0, (omega arith, fresh.2.1))
      ])

  abbrev Listed : Result PiaError (List Region) × Pia → Type 0
  Listed (ok rs, p) = (p.token ≢ []) × (p.regions ≡ some rs) × Asked 1 1 p
  Listed (err _, p) = (p.token ≢ []) × Asked 1 1 p

  regions-Listed :
      (p : Pia) → (p.token ≢ []) × (p.regions ≡ none) × Asked 1 0 p → Listed (regions api p)
  unfolding regions
  regions-Listed p h =
      rw h.1 (elim (Result-cases (fetch_server_list api.list_text (api.list_reply p.list_calls))) [
        | inl (rs, e) ↦ rw e (h.0, refl, (h.2.0, omega arith))
        | inr (x, e) ↦ rw e (h.0, (h.2.0, omega arith))
      ])

  with_regions-Outcome :
      (cities : List CityConfig) (r : Result PiaError (List Region) × Pia)
      → Listed r
      → Outcome text cities (with_regions text api cities r)
  with_regions-Outcome cities (err e, p) h = (h.1, h.0)
  with_regions-Outcome cities (ok rs, p) h =
      let left = filter_unknown_regions text cities rs in
      if-cases (Outcome text cities) (is_empty left) (λ none_left. (h.2, h.0))
        (λ some_left. record {
          some_city = λ e. ground arith;
          known = (rs, h.1, filter_unknown_regions-Filtered text cities rs);
          token = h.0;
          asked = h.2;
        })

  with_token-Outcome :
      (cities : List CityConfig) (r : Result PiaError Bytes × Pia)
      → Fetched r
      → Outcome text cities (with_token text api cities r)
  with_token-Outcome cities (err e, p) h = (h.1, h.0)
  with_token-Outcome cities (ok t, p) h =
      with_regions-Outcome cities (regions api p) (regions-Listed p h)

  warm_up-Outcome :
      (cities : List CityConfig) (p : Pia)
      → Fresh p
      → Outcome text cities (warm_up text api cities p)
  unfolding warm_up
  warm_up-Outcome [] p fresh = (fresh.2, refl)
  warm_up-Outcome (c ∷ cs) p fresh =
      with_token-Outcome (c ∷ cs) (token api p) (token-Fetched p fresh)

  new-Fresh : (username password : Bytes) → Fresh (new_pia_client username password)
  unfolding new_pia_client
  new-Fresh username password = (refl, refl, (refl, refl))

-- The cities that the environment asks for.
abbrev pub configured_by : NameText → Environment → List CityConfig
configured_by text env =
    build_city_list text (env_or env.bind_addr (codes "127.0.0.1"))
      (env_or_int env.base_port (pos 9091)) env.pia_regions

module _ {C : Type 0} (text : NameText) (api : Api) where
  with_cert-Outcome :
      (env : Environment) (r : Result CertError C)
      → Outcome text (configured_by text env) (with_cert text api env r)
  with_cert-Outcome env (err e) = (new-Fresh text api env.pia_user env.pia_pwd).2
  with_cert-Outcome env (ok cert) =
      warm_up-Outcome text api (configured_by text env) (new_pia_client env.pia_user env.pia_pwd)
        (new-Fresh text api env.pia_user env.pia_pwd)

  -- Whatever the environment, the certificate and the endpoints are, main either ends with one of
  -- its messages, after asking for at most one token and one list as the message says, or starts
  -- with some cities, exactly those configured whose region is in the list it was told, with the
  -- token and the list cached after one request for each.
  pub start_up-Outcome :
      (load : Bytes → Result CertError C) (env : Environment)
      → Outcome text (configured_by text env) (start_up text api load env)
  unfolding start_up
  start_up-Outcome load env =
      if-cases (Outcome text (configured_by text env))
        (str_eq env.pia_user [] || str_eq env.pia_pwd [])
        (λ missing. (new-Fresh text api env.pia_user env.pia_pwd).2)
        (λ given. with_cert-Outcome env (load (env_or env.pia_cert_file (codes "ca.rsa.4096.crt"))))
