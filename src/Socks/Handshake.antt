-- ===== src/Socks/Handshake.antt =====
-- The packets of the TCP handshake: parseClientGreeting, parseClientAuth, parseClientRequest, and
-- `marshal` of a response.
pub mod Formats
use piaproxy.Base.{ℕ, ◌==◌, ◌∷◌, [], ◌++◌, if◌then◌else◌, get_or, contains, Bytes}
use piaproxy.Base.Result.{Result, ok, err}
use piaproxy.Net.{IpText}
use piaproxy.Socks.Wire.{
  Request, Response, SocksError, socks5_version, password_auth_version, header_unread,
  version_mismatch, methods_unread, no_acceptable_method, auth_header_unread, auth_version_bad,
  username_unread, password_size_unread, password_unread,
}
use piaproxy.Socks.Reader.{Reader, pure, fail, read, ◌>>=◌}
use piaproxy.Socks.Addr.{parse_socks_addr, marshal_addr}

-- The loop over the methods that the client offers.
abbrev choose_method : ℕ → Bytes → Reader (Unit {0})
choose_method auth_method methods =
    if contains auth_method methods then pure tt else fail no_acceptable_method

unfoldable pub parse_client_greeting : ℕ → Reader (Unit {0})
parse_client_greeting auth_method = do
  hdr ← read 2 header_unread
  if get_or hdr 0 0 == socks5_version
      then (do methods ← read (get_or hdr 1 0) methods_unread; choose_method auth_method methods)
      else fail version_mismatch

-- What stands behind the header of the packet with the credentials.
abbrev read_credentials : ℕ → Reader (Bytes × Bytes)
read_credentials usr_len = do
  usr ← read usr_len username_unread
  hdr_pwd ← read 1 password_size_unread
  pwd ← read (get_or hdr_pwd 0 0) password_unread
  pure (usr, pwd)

unfoldable pub parse_client_auth : Reader (Bytes × Bytes)
parse_client_auth = do
  hdr ← read 2 auth_header_unread
  if get_or hdr 0 0 == password_auth_version
      then read_credentials (get_or hdr 1 0)
      else fail auth_version_bad

module _ (net : IpText) where
  -- The version and the reserved byte are read and not looked at.
  unfoldable pub parse_client_request : Reader Request
  parse_client_request = do
    hdr ← read 3 header_unread
    destination ← parse_socks_addr net
    pure (record { command = get_or hdr 1 0; destination = destination })

  unfoldable pub marshal_response : Response → Result SocksError Bytes
  marshal_response res = elim (marshal_addr net res.bind_addr) [
    | err e ↦ err e
    | ok addr_pkt ↦ ok (socks5_version ∷ res.reply ∷ 0 ∷ addr_pkt)
  ]
