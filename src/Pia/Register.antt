-- ===== src/Pia/Register.antt =====
-- registerWireGuardKey: the verification of the connection, and the answer to addKey.
pub mod Answer
use piaproxy.Base.{ℕ, not, Bool, Option, none, some, List, [], ◌∷◌, if◌then◌else◌, Bytes, codes}
use piaproxy.Base.Int.{ℤ}
use piaproxy.Base.Result.{Result, ok, err, or_err, ◌>>=◌}
use piaproxy.Net.{NetError, IpText}
use piaproxy.Pia.Http.{
  PiaError, HttpReply, HeaderText, Endpoint, add_key_endpoint, transport, check_status,
  add_key_undecodable, status_not_ok, server_ip_mismatch, peer_ip_invalid, dns_ip_invalid,
}

pub record WireGuardConfig : Type 0 where
  pub peer_ipv4 : Bytes
  pub server_public_key : Bytes
  pub server_port : ℤ
  pub dns_ipv4_servers : List Bytes

-- The JSON of the answer.
pub record Payload : Type 0 where
  pub status : Bytes
  pub server_ip : Bytes
  pub peer_ip : Bytes
  pub server_key : Bytes
  pub server_port : ℤ
  pub dns_servers : List Bytes

-- What is used of other packages.
pub record AnswerText : Type 0 where
  pub net : IpText
  pub header : HeaderText
  pub equal_fold : Bytes → Bytes → Bool
  pub decode_payload : Bytes → Option Payload

-- A certificate of crypto/x509: the common name of its subject, and the result of Verify against
-- the PIA root with a list of intermediates.
pub record Certificates (Cert : Type 0) : Type 0 where
  pub common_name : Cert → Bytes
  pub verify : List Cert → Cert → Bool

pub data TlsError : Type 0 where
  no_peer_certificates common_name_mismatch not_verified : TlsError

module _ {Cert : Type 0} (certs : Certificates Cert) (equal_fold : Bytes → Bytes → Bool) where
  -- The callback VerifyConnection, on the certificates that the server sent.
  unfoldable pub verify_connection : Bytes → List Cert → Option TlsError
  verify_connection server_hostname [] = some no_peer_certificates
  verify_connection server_hostname (leaf ∷ intermediates) =
      if not (equal_fold (certs.common_name leaf) server_hostname)
      then some common_name_mismatch
      else if certs.verify intermediates leaf
      then none
      else some not_verified

module _ (text : AnswerText) where
  -- The loop over the DNS servers.
  unfoldable pub parse_dns : List Bytes → Result PiaError (List Bytes)
  parse_dns [] = ok []
  parse_dns (s ∷ ss) = elim (text.net.parse_ip s) [
    | none ↦ err dns_ip_invalid
    | some ip ↦ elim (parse_dns ss) [ err e ↦ err e | ok ips ↦ ok (ip ∷ ips) ]
  ]

  abbrev pub config_of : Bytes → Payload → Result PiaError WireGuardConfig
  config_of server_ip p =
      if not (text.equal_fold p.status (codes "OK"))
      then err status_not_ok
      else if not (text.equal_fold p.server_ip server_ip)
      then err server_ip_mismatch
      else do
        peer ← or_err (text.net.parse_ip p.peer_ip) peer_ip_invalid
        dns ← parse_dns p.dns_servers
        ok (record {
          peer_ipv4 = peer;
          server_public_key = p.server_key;
          server_port = p.server_port;
          dns_ipv4_servers = dns;
        })

  abbrev pub read_answer : Bytes → HttpReply → Result PiaError WireGuardConfig
  read_answer server_ip r = elim r.body_error [
    | some e ↦ err (transport e)
    | none ↦ or_err (text.decode_payload r.body) add_key_undecodable >>= config_of server_ip
  ]

  -- What the request for addKey returned.
  unfoldable pub register_answer :
      Bytes → Result NetError HttpReply → Result PiaError WireGuardConfig
  register_answer server_ip (err e) = err (transport e)
  register_answer server_ip (ok r) =
      check_status text.header add_key_endpoint r >>= read_answer server_ip
