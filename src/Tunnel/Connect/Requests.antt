-- ===== src/Tunnel/Connect/Requests.antt =====
-- How often an attempt asks for a token.
use piaproxy.Base.{
  ℕ, ◌+◌, ◌≤◌, ◌≡◌, ◌≢◌, ◌⊎◌, inl, inr, true, Option, none, some, [], arith, Option-cases,
  Bool-cases, length, get_elem?, if-cases, ◌==◌,
}
use piaproxy.Base.Result.{Result, ok, err}
use piaproxy.Pia.Http.{PiaError, is_auth_error}
use piaproxy.Pia.Regions.{ServerEndpoint, Region}
use piaproxy.Pia.Client.{
  Api, Pia, WgSession, new_session, new_session_with_server, with_server, with_index, token,
  invalidate_token,
}
use piaproxy.Pia.Client.Token.{
  KeepsToken, is_rejected, new_session-KeepsToken, new_session_with_server-KeepsToken,
}
use piaproxy.Tunnel.{CityConfig}
use piaproxy.Tunnel.Connect.{preferred_server_in_region, or_random, register}

module _ (api : Api) where
  new_session_with_server-requests :
      (region : Region) (server : ServerEndpoint) (p : Pia)
      → (new_session_with_server api region server p).1.token_calls ≤ p.token_calls + 1
  unfolding new_session_with_server token invalidate_token
  new_session_with_server-requests region server p = ground arith

  new_session-requests :
      (region : Region) (p : Pia) → (new_session api region p).1.token_calls ≤ p.token_calls + 1
  unfolding new_session
  new_session-requests region p =
      let drawn = record p { random_calls = p.random_calls + 1 } in
      let n = length region.wireguard_servers in
      if-cases (λ (r : Result PiaError WgSession × Pia). r.1.token_calls ≤ p.token_calls + 1)
        (n == 0) (λ _. omega arith) (λ _. indexed (api.random p.random_calls n) drawn)
    where
      served :
          (server : Option ServerEndpoint) (q : Pia)
          → (with_server api region server q).1.token_calls ≤ q.token_calls + 1
      served none q = omega arith
      served (some s) q = new_session_with_server-requests region s q

      indexed :
          (index : Option ℕ) (q : Pia)
          → (with_index api region index q).1.token_calls ≤ q.token_calls + 1
      indexed none q = omega arith
      indexed (some i) q = served (get_elem? region.wireguard_servers i) q

  -- The preferred server of the region, asked first, answered with an AuthError.
  pub record PreferredRejected (cfg : CityConfig) (region : Region) (p : Pia) : Type 0 where
    pub server : ServerEndpoint
    pub preferred : preferred_server_in_region api.list_text cfg region ≡ some server
    pub rejected : is_rejected (new_session_with_server api region server p).0 ≡ true

  or_random-requests :
      (region : Region) (p : Pia) (r : Result PiaError WgSession × Pia)
      → p.token ≢ []
      → KeepsToken p r
      → ((or_random api region r).1.token_calls ≡ p.token_calls)
        ⊎ (((or_random api region r).1.token_calls ≤ p.token_calls + 1) × (is_rejected r.0 ≡ true))
  or_random-requests region p (ok session, q) h k = inl k.no_request
  or_random-requests region p (err e, q) h k = elim (Bool-cases (is_auth_error e)) [
    | inl rejected ↦
        let bound = new_session-requests region q in inr (rw (← k.no_request) bound, rejected)
    | inr other ↦
        let kept : q.token ≢ [] = ground (arith, k.token) in
        inl (ground (arith, k.no_request, (new_session-KeepsToken api region q kept).no_request))
  ]

  -- With a token cached, the registration of an attempt asks for no token, or it asks for at most
  -- one, after the preferred server answered with an AuthError.
  pub register-requests :
      (cfg : CityConfig) (region : Region) (p : Pia)
      → p.token ≢ []
      → ((register api cfg region p).1.token_calls ≡ p.token_calls)
        ⊎ (((register api cfg region p).1.token_calls ≤ p.token_calls + 1)
            × PreferredRejected cfg region p)
  unfolding register
  register-requests cfg region p h =
      elim (Option-cases (preferred_server_in_region api.list_text cfg region)) [
        | inl unset ↦ rw unset (inl (new_session-KeepsToken api region p h).no_request)
        | inr (server, set) ↦
            let first = new_session_with_server-KeepsToken api region server p h in
            elim (or_random-requests region p (new_session_with_server api region server p) h
              first) [
                | inl e ↦ inl (rw set e)
                | inr (bound, rejected) ↦
                    inr (
                      rw set bound,
                      record { server = server; preferred = set; rejected = rejected },
                    )
              ]
      ]
