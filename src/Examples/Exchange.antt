-- ===== src/Examples/Exchange.antt =====
-- A registration over a verified connection, and the theorem about it.
use piaproxy.Base.{
  if◌then◌else◌, ◌+◌, ◌-◌, ◌≡◌, ◌≢◌, refl, true, false, none, some, [], ◌∷◌, All, arith, Bytes,
  codes, str_eq,
}
use piaproxy.Base.Result.{ok}
use piaproxy.Pia.Register.{Certificates, verify_connection}
use piaproxy.Pia.Exchange.{
  QueryText, Peer, final, moved, follow, round_trip, dial_tls, register_wireguard_key, add_key_url,
  server_addr, dial_func,
}
use piaproxy.Base.Int.{pos}
use piaproxy.Pia.Client.{WgSession}
use piaproxy.Pia.Network.{Network}
use piaproxy.Examples.Pia.{server_one, answer_text, reply, list_text, sixteen}

-- Every byte moved past the marks of a query.
abbrev escape : Bytes → Bytes
escape [] = []
escape (c ∷ cs) = (c + 128) ∷ escape cs

abbrev unescape : Bytes → Bytes
unescape [] = []
unescape (c ∷ cs) = (c - 128) ∷ unescape cs

unescape-escape : (s : Bytes) → unescape (escape s) ≡ s
unescape-escape [] = refl
unescape-escape (c ∷ cs) = ground (arith, unescape-escape cs)

escape-no_ampersand : (s : Bytes) → All (λ c. c ≢ b'&') (escape s)
escape-no_ampersand [] = tt
escape-no_ampersand (c ∷ cs) = ((λ e. omega arith), escape-no_ampersand cs)

query : QueryText
query = record {
  escape = escape;
  unescape = unescape;
  unescape-escape = unescape-escape;
  escape-no_ampersand = escape-no_ampersand;
}

-- A certificate is its common name.
abbrev certificates : Certificates Bytes
certificates = record { common_name = λ c. c; verify = λ rest leaf. true }

abbrev peer : Peer Bytes
peer = record {
  http_dial = none;
  net_dial = λ network addr. none;
  handshake = λ n. ok (codes "one" ∷ []);
  url_error = λ url. none;
  reply = λ n url. ok (reply 200);
  redirect = λ url answer. final;
  is_https = λ url. true;
  reuses = λ n. true;
}

sends :
    let r =
      register_wireguard_key answer_text certificates query peer server_one
        (codes "t")
        (codes "k") in
    r.1.sent ≡ add_key_url query server_one (codes "t") (codes "k") ∷ []
unfolding register_wireguard_key follow dial_tls dial_func server_addr str_eq verify_connection
sends = refl

abbrev network : Network Bytes
network = record {
  list_text = list_text;
  answer_text = answer_text;
  decode_token = λ body. some (codes "t");
  encode_form = λ form. [];
  certificates = certificates;
  query = query;
  token_server = λ n request. ok (reply 200);
  list_server = λ n request. ok (reply 200);
  peer = λ n server. peer;
  key_pair = λ n. some (codes "pub", codes "priv");
  random = λ n bound. some 0;
  now = λ n. n;
}

abbrev made : WgSession
made = record {
  region = codes "a";
  server = server_one;
  peer_ip = sixteen;
  server_public_key = codes "k";
  server_port = pos 1337;
  dns_servers = sixteen ∷ [];
  private_key = codes "priv";
  public_key = codes "pub";
}

-- A server whose reply leads to a URL without TLS.
abbrev leading : Peer Bytes
leading = record peer {
  redirect =
      λ url answer. if str_eq url (codes "http://x") then final else moved (codes "http://x");
  is_https = λ url. false;
}

leads_out :
    let r =
      register_wireguard_key answer_text certificates query leading server_one
        (codes "t")
        (codes "k") in
    r.1.in_clear ≡ codes "http://x" ∷ []
unfolding register_wireguard_key follow round_trip dial_tls dial_func server_addr add_key_url str_eq
    verify_connection
leads_out = refl
