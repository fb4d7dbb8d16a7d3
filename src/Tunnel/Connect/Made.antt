-- ===== src/Tunnel/Connect/Made.antt =====
-- The answer and the keys that a session of NewSessionWithServer is made of.
use piaproxy.Base.{ℕ, ◌+◌, ◌≡◌, refl, ◌⊎◌, inl, inr, arith, Option-cases, Bytes}
use piaproxy.Base.Result.{Result, ok, err, Result-cases}
use piaproxy.Pia.Http.{PiaError}
use piaproxy.Pia.Regions.{ServerEndpoint, Region}
use piaproxy.Pia.Register.{WireGuardConfig, register_answer}
use piaproxy.Pia.Client.{Api, Pia, WgSession, new_session_with_server, token}

-- What a session of NewSessionWithServer is made of.
pub record IsMade (api : Api) (server : ServerEndpoint) (s : WgSession) : Type 0 where
  pub call : ℕ
  pub token : Bytes
  pub public : Bytes
  pub config : WireGuardConfig
  pub answered :
      register_answer api.answer_text server.ip (api.add_key_reply call server token public)
      ≡ ok config
  pub server_same : s.server ≡ server
  pub peer_ip : s.peer_ip ≡ config.peer_ipv4
  pub key : s.server_public_key ≡ config.server_public_key

module _ (api : Api) where
  pair_cases :
      {A : Type 0} (r : Result PiaError A × Pia)
      → ((a : A) × (q : Pia) × (r ≡ (ok a, q))) ⊎ ((e : PiaError) × (q : Pia) × (r ≡ (err e, q)))
  pair_cases (ok a, q) = inl (a, q, refl)
  pair_cases (err e, q) = inr (e, q, refl)

  pub new_session_with_server-IsMade :
      (region : Region) (server : ServerEndpoint) (p : Pia) (s : WgSession)
      → (new_session_with_server api region server p).0 ≡ ok s
      → IsMade api server s
  unfolding new_session_with_server
  new_session_with_server-IsMade region server p s h =
      elim (Option-cases (api.key_pair p.key_calls)) [
        | inl none_made ↦ absurd (ground arith)
        | inr ((public, private), made) ↦
            elim (pair_cases (token api (record p { key_calls = p.key_calls + 1 }))) [
              | inr (e, q, f) ↦ absurd (ground arith)
              | inl (t, q, f) ↦
                  elim (Result-cases (
                    register_answer api.answer_text server.ip
                      (api.add_key_reply q.add_key_calls server t public))) [
                        | inr (e, g) ↦ absurd (ground arith)
                        | inl (wg, g) ↦ record {
                          call = q.add_key_calls;
                          token = t;
                          public = public;
                          config = wg;
                          answered = g;
                          server_same = ground arith;
                          peer_ip = ground arith;
                          key = ground arith;
                        }
                      ]
            ]
      ]
