-- ===== src/Examples/Pia.antt =====
-- A PIA client with concrete endpoints, and the theorems about it.
use piaproxy.Base.{
  ℕ, ◌≡◌, refl, true, false, none, some, [], ◌∷◌, ◌++◌, arith, Bytes, codes, str_eq, if◌then◌else◌,
}
use piaproxy.Base.Int.{pos}
use piaproxy.Base.Result.{Result, ok, err}
use piaproxy.Net.{NetError, v4_in_v6_prefix}
use piaproxy.Pia.Http.{HttpReply, check_status}
use piaproxy.Pia.Regions.{
  ServerEndpoint, Region, RawRegion, ListText, first_line, wireguard_port, fetch_server_list,
}
use piaproxy.Pia.Regions.Catalog.{Listed, fetch_server_list-Listed}
use piaproxy.Pia.Register.{WireGuardConfig, Payload, AnswerText, register_answer, parse_dns}
use piaproxy.Pia.Client.{Api, Pia, new_session_with_server, token_answer}
use piaproxy.Pia.Client.Token.{
  KeepsToken, is_rejected, new_session_with_server-KeepsToken, new_session_with_server-fetches,
}
use piaproxy.Examples.{sample_net}

abbrev pub server_one : ServerEndpoint
server_one = record { ip = codes "1"; cn = codes "one"; port = pos 1337 }

abbrev pub region_a : Region
region_a = record {
  id = codes "a";
  name = codes "A";
  country = codes "C";
  dns = [];
  port_forward = true;
  geo = false;
  offline = false;
  wireguard_servers = server_one ∷ [];
}

abbrev pub raw_a : RawRegion
raw_a = record {
  id = codes "a";
  name = codes "A";
  country = codes "C";
  dns = [];
  port_forward = true;
  geo = false;
  offline = false;
  servers = record { ip = codes "1"; cn = codes "one" } ∷ [];
}

abbrev pub list_text : ListText
list_text = record {
  equal_fold = str_eq;
  decode_root = λ line. some (record {
    groups = record { name = codes "WireGuard"; ports = pos 1337 ∷ [] } ∷ [];
    regions = raw_a ∷ [];
  });
}

abbrev pub sixteen : Bytes
sixteen = v4_in_v6_prefix ++ 10 ∷ 0 ∷ 0 ∷ 1 ∷ []

abbrev pub sample_payload : Payload
sample_payload = record {
  status = codes "OK";
  server_ip = codes "1";
  peer_ip = sixteen;
  server_key = codes "k";
  server_port = pos 1337;
  dns_servers = sixteen ∷ [];
}

abbrev pub answer_text : AnswerText
answer_text = record {
  net = sample_net;
  header = record { trim_space = λ s. s; time_until = λ s. none };
  equal_fold = str_eq;
  decode_payload = λ body. some sample_payload;
}

abbrev pub reply : ℕ → HttpReply
reply code = record {
  status_code = code;
  status = codes "status";
  body = codes "{}" ++ 10 ∷ codes "sig";
  body_error = none;
  retry_after = [];
}

-- Every token is `t`, and addKey is answered with the given status.
abbrev pub api : ℕ → Api
api code = record {
  list_text = list_text;
  answer_text = answer_text;
  decode_token = λ body. some (codes "t");
  token_reply = λ n user pwd. ok (reply 200);
  list_reply = λ n. ok (reply 200);
  add_key_reply = λ n server token public. ok (reply code);
  key_pair = λ n. some (codes "pub", codes "priv");
  random = λ n bound. some 0;
  now = λ n. n;
}

abbrev pub client : Bytes → Pia
client token = record {
  client = record {
    username = codes "u";
    password = codes "p";
    token = token;
    token_acquired_at = none;
    regions = none;
  };
  token_calls = 0;
  list_calls = 0;
  add_key_calls = 0;
  key_calls = 0;
  random_calls = 0;
}

new_session_with_server-KeepsToken_example :
    KeepsToken
      (client (codes "t"))
      (new_session_with_server (api 401) region_a server_one (client (codes "t")))
new_session_with_server-KeepsToken_example =
    new_session_with_server-KeepsToken (api 401) region_a server_one (client (codes "t"))
      (λ e. ground arith)

new_session_with_server-fetches_example :
    let r = new_session_with_server (api 200) region_a server_one (client []) in
    (r.1.token_calls ≡ 1)
    × (r.1.token ≡ (
        if is_rejected r.0
        then []
        else elim (token_answer (api 200) (ok (reply 200))) [ ok t ↦ t | err e ↦ [] ]))
new_session_with_server-fetches_example =
    new_session_with_server-fetches (api 200) region_a server_one (client [])
      (codes "pub", codes "priv") refl refl

list_arrives : fetch_server_list list_text (ok (reply 200)) ≡ ok (region_a ∷ [])
unfolding fetch_server_list first_line wireguard_port str_eq
list_arrives = refl

fetch_server_list-Listed_example : Listed list_text (reply 200) (region_a ∷ [])
fetch_server_list-Listed_example =
    fetch_server_list-Listed list_text (reply 200) (region_a ∷ []) list_arrives

abbrev config : WireGuardConfig
config = record {
  peer_ipv4 = sixteen;
  server_public_key = codes "k";
  server_port = pos 1337;
  dns_ipv4_servers = sixteen ∷ [];
}

answer_arrives : register_answer answer_text (codes "1") (ok (reply 200)) ≡ ok config
unfolding register_answer check_status str_eq parse_dns
answer_arrives = refl

abbrev answered : Result NetError HttpReply
answered = ok (reply 200)
