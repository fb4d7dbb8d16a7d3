-- ===== src/Pia/Register/Answer.antt =====
-- What an accepted answer to addKey guarantees.
use piaproxy.Base.{
  ◌≤◌, ◌<◌, ◌≡◌, refl, inl, inr, true, none, some, List, [], ◌∷◌, arith, All, length, Bytes, codes,
  Option-cases,
}
use piaproxy.Base.Result.{Result, ok, err, Result-cases}
use piaproxy.Net.{NetError}
use piaproxy.Pia.Http.{HttpReply, check_status, add_key_endpoint}
use piaproxy.Pia.Register.{AnswerText, Payload, WireGuardConfig, parse_dns, register_answer}

module _ (text : AnswerText) where
  parse_dns-length :
      (ss ips : List Bytes) → parse_dns text ss ≡ ok ips → All (λ ip. length ip ≡ 16) ips
  unfolding parse_dns
  parse_dns-length [] ips e = ground arith
  parse_dns-length (s ∷ ss) ips e = elim (Option-cases (text.net.parse_ip s)) [
    | inl f ↦ absurd (ground arith)
    | inr (ip, f) ↦ elim (Result-cases (parse_dns text ss)) [
      | inr (x, g) ↦ absurd (ground arith)
      | inl (rest, g) ↦
          let same : ips ≡ ip ∷ rest = ground arith in
          rw same (text.net.parse_ip-length s ip f, parse_dns-length ss rest g)
    ]
  ]

  -- The answer was a success with a payload that says OK and names the server that was asked; the
  -- addresses are parsed IP addresses.
  pub record Accepted (server_ip : Bytes) (r : HttpReply) (wg : WireGuardConfig) : Type 0 where
    pub payload : Payload
    pub status_ok : (200 ≤ r.status_code) × (r.status_code < 300)
    pub decoded : text.decode_payload r.body ≡ some payload
    pub whole_body : r.body_error ≡ none
    pub says_ok : text.equal_fold payload.status (codes "OK") ≡ true
    pub same_server : text.equal_fold payload.server_ip server_ip ≡ true
    pub peer : text.net.parse_ip payload.peer_ip ≡ some wg.peer_ipv4
    pub dns_size : All (λ ip. length ip ≡ 16) wg.dns_ipv4_servers
    pub key : wg.server_public_key ≡ payload.server_key
    pub port : wg.server_port ≡ payload.server_port

  check_status_ok :
      (r r' : HttpReply)
      → check_status text.header add_key_endpoint r ≡ ok r'
      → (r' ≡ r) × (200 ≤ r.status_code) × (r.status_code < 300)
  unfolding check_status
  check_status_ok r r' e = ground arith

  -- registerWireGuardKey returns a configuration only for an answer with a 2xx status whose whole
  -- body decodes to a payload that says OK and names the server that was asked, with the parsed
  -- peer address, DNS addresses of 16 bytes, and the key and port of the payload.
  pub register_answer-Accepted :
      (server_ip : Bytes) (answer : Result NetError HttpReply) (wg : WireGuardConfig)
      → register_answer text server_ip answer ≡ ok wg
      → (r : HttpReply) × (answer ≡ ok r) × Accepted server_ip r wg
  unfolding register_answer
  register_answer-Accepted server_ip (err e) wg h = absurd (ground arith)
  register_answer-Accepted server_ip (ok r) wg h =
      elim (Result-cases (check_status text.header add_key_endpoint r)) [
        | inr (x, f) ↦ absurd (ground arith)
        | inl (r', f) ↦ elim (Option-cases (text.decode_payload r.body)) [
          | inl g ↦ absurd (ground (arith, check_status_ok r r' f))
          | inr (p, g) ↦ elim (Option-cases (text.net.parse_ip p.peer_ip)) [
            | inl k ↦ absurd (ground (arith, check_status_ok r r' f))
            | inr (peer, k) ↦ elim (Result-cases (parse_dns text p.dns_servers)) [
              | inr (x, d) ↦ absurd (ground (arith, check_status_ok r r' f))
              | inl (dns, d) ↦
                  let dns_same : wg.dns_ipv4_servers ≡ dns =
                    ground (arith, check_status_ok r r' f) in
                  (
                    r,
                    refl,
                    record {
                      payload = p;
                      status_ok = ground (arith, check_status_ok r r' f);
                      decoded = g;
                      whole_body = ground (arith, check_status_ok r r' f);
                      says_ok = ground (arith, check_status_ok r r' f);
                      same_server = ground (arith, check_status_ok r r' f);
                      peer = ground (arith, check_status_ok r r' f);
                      dns_size = rw dns_same (parse_dns-length p.dns_servers dns d);
                      key = ground (arith, check_status_ok r r' f);
                      port = ground (arith, check_status_ok r r' f);
                    },
                  )
            ]
          ]
        ]
      ]
