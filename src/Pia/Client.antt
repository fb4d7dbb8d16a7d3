-- ===== src/Pia/Client.antt =====
-- PIAClient: the cached token and region list, and the making of a session. The answers of the
-- endpoints, the keys and the random numbers are arguments, numbered by the calls made so far.
pub mod Token
use piaproxy.Base.{
  ℕ, ◌+◌, ◌==◌, not, Bool, Option, none, some, List, [], ◌∷◌, if◌then◌else◌, length, get_elem?,
  Bytes, str_eq,
}
use piaproxy.Base.Int.{ℤ}
use piaproxy.Base.Result.{Result, ok, err, or_err, ◌>>=◌}
use piaproxy.Base.Time.{Time}
use piaproxy.Net.{NetError}
use piaproxy.Pia.Http.{
  PiaError, HttpReply, transport, token_endpoint, check_status, token_undecodable, token_empty,
  no_servers, key_generation, random_source, index_panic, is_auth_error,
}
use piaproxy.Pia.Regions.{ServerEndpoint, Region, ListText, fetch_server_list, find_in}
use piaproxy.Pia.Register.{WireGuardConfig, AnswerText, register_answer}

pub record PiaClient : Type 0 where
  pub username : Bytes
  pub password : Bytes
  pub token : Bytes
  pub token_acquired_at : Time
  pub regions : Option (List Region)

-- WGSession, with the region's ID for the pointer to it.
pub record WgSession : Type 0 where
  pub region : Bytes
  pub server : ServerEndpoint
  pub peer_ip : Bytes
  pub server_public_key : Bytes
  pub server_port : ℤ
  pub dns_servers : List Bytes
  pub private_key : Bytes
  pub public_key : Bytes

-- What answers the client.
pub record Api : Type 0 where
  pub list_text : ListText
  pub answer_text : AnswerText
  -- The JSON decoder of the token.
  pub decode_token : Bytes → Option Bytes
  -- The answer to the n-th request for a token, with the username and the password.
  pub token_reply : ℕ → Bytes → Bytes → Result NetError HttpReply
  pub list_reply : ℕ → Result NetError HttpReply
  -- The answer to the n-th addKey: to a server, with the token and the public key.
  pub add_key_reply : ℕ → ServerEndpoint → Bytes → Bytes → Result NetError HttpReply
  -- generateWireGuardKeyPair: public and private.
  pub key_pair : ℕ → Option (Bytes × Bytes)
  -- rand.Int below a bound.
  pub random : ℕ → ℕ → Option ℕ
  -- time.Now after the n-th token was received.
  pub now : ℕ → ℕ

-- The client, and how often each answer was asked for.
pub record Pia : Type 0 where
  pub client : PiaClient
  pub open client use *
  pub token_calls : ℕ
  pub list_calls : ℕ
  pub add_key_calls : ℕ
  pub key_calls : ℕ
  pub random_calls : ℕ

unfoldable pub set_token : Bytes → Time → Pia → Pia
set_token token acquired_at p = record p {
  client = record p.client { token = token; token_acquired_at = acquired_at };
}

unfoldable pub get_token : Pia → Bytes × Time
get_token p = (p.token, p.token_acquired_at)

unfoldable pub invalidate_token : Pia → Pia
invalidate_token p = record p { client = record p.client { token = []; token_acquired_at = none } }

module _ (api : Api) where
  abbrev nonempty_token : Bytes → Result PiaError Bytes
  nonempty_token t = if str_eq t [] then err token_empty else ok t

  -- fetchAuthToken, on the answer of the endpoint.
  unfoldable pub token_answer : Result NetError HttpReply → Result PiaError Bytes
  token_answer (err e) = err (transport e)
  token_answer (ok r) = do
    r ← check_status api.answer_text.header token_endpoint r
    t ← or_err (api.decode_token r.body) token_undecodable
    nonempty_token t

  abbrev store_token : Result PiaError Bytes → Pia → Result PiaError Bytes × Pia
  store_token (err e) p = (err e, p)
  store_token (ok t) p = (
    ok t,
    record p {
      client = record p.client { token = t; token_acquired_at = some (api.now p.token_calls) };
    },
  )

  -- `Token`.
  unfoldable pub token : Pia → Result PiaError Bytes × Pia
  token p =
      if not (str_eq p.token [])
      then (ok p.token, p)
      else store_token (token_answer (api.token_reply p.token_calls p.username p.password))
          (record p { token_calls = p.token_calls + 1 })

  abbrev store_regions : Result PiaError (List Region) → Pia → Result PiaError (List Region) × Pia
  store_regions (err e) p = (err e, p)
  store_regions (ok rs) p = (ok rs, record p { client = record p.client { regions = some rs } })

  -- `Regions`.
  unfoldable pub regions : Pia → Result PiaError (List Region) × Pia
  regions p = elim p.regions [
    | some rs ↦ (ok rs, p)
    | none ↦
        store_regions (fetch_server_list api.list_text (api.list_reply p.list_calls))
          (record p { list_calls = p.list_calls + 1 })
  ]

  -- `FindRegion`.
  unfoldable pub find_region : Bytes → Pia → Result PiaError Region × Pia
  find_region id p = let (rs, p') = regions p in (find_in api.list_text id rs, p')

  abbrev session_of : Region → ServerEndpoint → Bytes → Bytes → WireGuardConfig → WgSession
  session_of region server public private wg = record {
    region = region.id;
    server = server;
    peer_ip = wg.peer_ipv4;
    server_public_key = wg.server_public_key;
    server_port = wg.server_port;
    dns_servers = wg.dns_ipv4_servers;
    private_key = private;
    public_key = public;
  }

  -- The cached token goes only if the error is an AuthError.
  abbrev after_register :
      Region
      → ServerEndpoint
      → Bytes
      → Bytes
      → Result PiaError WireGuardConfig
      → Pia
      → Result PiaError WgSession × Pia
  after_register region server public private (err e) p =
      (err e, if is_auth_error e then invalidate_token p else p)
  after_register region server public private (ok wg) p =
      (ok (session_of region server public private wg), p)

  abbrev with_token :
      Region
      → ServerEndpoint
      → Bytes
      → Bytes
      → Result PiaError Bytes × Pia
      → Result PiaError WgSession × Pia
  with_token region server public private (err e, p) = (err e, p)
  with_token region server public private (ok t, p) =
      after_register region server public private
        (register_answer api.answer_text server.ip
          (api.add_key_reply p.add_key_calls server t public))
        (record p { add_key_calls = p.add_key_calls + 1 })

  abbrev with_keys :
      Region → ServerEndpoint → Option (Bytes × Bytes) → Pia → Result PiaError WgSession × Pia
  with_keys region server none p = (err key_generation, p)
  with_keys region server (some (public, private)) p =
      with_token region server public private (token p)

  unfoldable pub new_session_with_server :
      Region → ServerEndpoint → Pia → Result PiaError WgSession × Pia
  new_session_with_server region server p =
      with_keys region server (api.key_pair p.key_calls) (record p { key_calls = p.key_calls + 1 })

  abbrev pub with_server : Region → Option ServerEndpoint → Pia → Result PiaError WgSession × Pia
  with_server region none p = (err index_panic, p)
  with_server region (some server) p = new_session_with_server region server p

  abbrev pub with_index : Region → Option ℕ → Pia → Result PiaError WgSession × Pia
  with_index region none p = (err random_source, p)
  with_index region (some r) p = with_server region (get_elem? region.wireguard_servers r) p

  -- `NewSession`.
  unfoldable pub new_session : Region → Pia → Result PiaError WgSession × Pia
  new_session region p =
      if length region.wireguard_servers == 0
      then (err no_servers, p)
      else with_index region (api.random p.random_calls (length region.wireguard_servers))
          (record p { random_calls = p.random_calls + 1 })
