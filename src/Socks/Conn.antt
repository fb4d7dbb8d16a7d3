-- ===== src/Socks/Conn.antt =====
-- One client connection: `Conn.Run` and what it calls. A method takes the connection and returns
-- its outcome and the connection afterwards; what the client sends, the answers of the network and
-- the pieces that io.Copy moves are arguments.
pub mod Auth
pub mod Replies
pub mod Relay
pub mod Dialogue
use piaproxy.Base.{
  ℕ, ◌+◌, ◌%◌, ◌^◌, ◌==◌, ◌||◌, Bool, not, true, Option, none, some, List, [], ◌∷◌, ◌++◌,
  if◌then◌else◌, ltb, length, take, drop, Bytes, codes, str_eq,
}
use piaproxy.Base.Int.{ℤ, pos, ltb_ℤ, pos_part}
use piaproxy.Base.Result.{Result, ok, err}
use piaproxy.Net.{NetError, join_host_port}
use piaproxy.Net.Decimal.{atoi}
use piaproxy.Socks.Wire.{
  SocksAddr, Request, Response, SocksError, success, general_failure, command_not_supported,
  error_response, no_auth_required, password_auth, no_acceptable_auth, socks5_version, connect,
  udp_associate,
}
use piaproxy.Socks.Reader.{Reader}
use piaproxy.Socks.Addr.{host_port, get_addr_type}
use piaproxy.Socks.Handshake.{
  parse_client_greeting, parse_client_auth, parse_client_request, marshal_response,
}
use piaproxy.Socks.State.{
  Credentials, Env, Conn, ConnError, protocol, network, bad_port, unsupported_command, from_backend,
  from_client, wrap, Outcome, returned, running, CopyEvent, down, up, down_done, up_done, UdpEvent,
}
use piaproxy.Socks.Associate.{transfer_udp}

abbrev pub write : Bytes → Conn → Conn
write bs c = record c { written = c.written ++ bs }

-- Runs a parser over what the client has sent and was not read.
abbrev pub reads {ℓ} : {A : Type ℓ} → Reader A → Conn → Result SocksError A × Conn
reads m c = let (a, rest) = m c.unread in (a, record c { unread = rest })

-- countWriter.Write: a write of `n` bytes on its counter.
unfoldable pub count_write : ℕ → ℕ → ℕ
count_write n counter = if ltb 0 n then (counter + n) % 2 ^ 64 else counter

-- The two io.Copy calls of handleTCP, piece by piece, until the first of them ends.
unfoldable pub relay : List CopyEvent → Conn → Outcome × Conn
relay [] c = (running, c)
relay (down p ∷ es) c =
    relay es (record c { written = c.written ++ p; rx_bytes = count_write (length p) c.rx_bytes })
relay (up n ∷ es) c = relay es (record c {
  unread = drop n c.unread;
  uploaded = c.uploaded ++ take n c.unread;
  tx_bytes = count_write (length (take n c.unread)) c.tx_bytes;
})
relay (down_done e ∷ es) c = (returned (wrap from_backend e), c)
relay (up_done e ∷ es) c = (returned (wrap from_client e), c)

module _ (server : Credentials) where
  unfoldable pub need_auth : Bool
  need_auth = not (str_eq server.username []) || not (str_eq server.password [])

  unfoldable pub auth_method : ℕ
  unfolding need_auth
  auth_method = if need_auth then password_auth else no_auth_required

module _ (env : Env) where
  -- `splitHostPort`.
  abbrev uint16_port : Bytes → Option ℤ → Result ConnError (Bytes × ℕ)
  uint16_port host none = err bad_port
  uint16_port host (some port) =
      if ltb_ℤ port (pos 0) || ltb_ℤ (pos 65535) port
      then err bad_port
      else ok (host, pos_part port)

  unfoldable pub split_host_port : Bytes → Result ConnError (Bytes × ℕ)
  split_host_port hostport = elim (env.split_host_port hostport) [
    | err e ↦ err (network e)
    | ok (host, port_str) ↦ uint16_port host (atoi port_str)
  ]

  -- `buf, _ := res.marshal()`: nothing where that fails.
  abbrev pub reply_bytes : Response → Bytes
  reply_bytes res = elim (marshal_response env.net res) [ err e ↦ [] | ok buf ↦ buf ]

  abbrev pub error_bytes : ℕ → Bytes
  error_bytes code = reply_bytes (error_response code)

  -- The reply with the bound address, or a failure where it cannot be marshalled.
  unfoldable pub success_bytes : Bytes → ℕ → Bytes
  success_bytes host port =
      elim (marshal_response env.net (record {
        reply = success;
        bind_addr = record { addr_type = get_addr_type env.net host; addr = host; port = port };
      })) [ err e ↦ error_bytes general_failure | ok buf ↦ buf ]

  -- What follows the reply that names the bound address.
  abbrev pub after_bound :
      (Conn → Outcome × Conn) → Result ConnError (Bytes × ℕ) → Conn → Outcome × Conn
  after_bound next (err e) c = (returned (some e), c)
  after_bound next (ok (host, port)) c = next (write (success_bytes host port) c)

  unfoldable pub handle_tcp : List CopyEvent → Request → Conn → Outcome × Conn
  handle_tcp traffic req c =
      let dest = host_port req.destination in
      let c' = record c {
        dest = dest;
        method = codes "tcp";
        dials = c.dials ++ ((codes "tcp", dest) ∷ []);
      } in
      elim (env.dial (codes "tcp") dest) [
        | err e ↦ (returned (some (network e)), write (error_bytes general_failure) c')
        | ok local_addr ↦ after_bound (relay traffic) (split_host_port local_addr) c'
      ]

  abbrev listen_udp : List UdpEvent → Bytes → Conn → Outcome × Conn
  listen_udp events host c = elim (env.listen_packet (join_host_port host (codes "0"))) [
    | err e ↦ (returned (some (network e)), write (error_bytes general_failure) c)
    | ok local_addr ↦
        after_bound (λ c'. transfer_udp env events (record c' { listening = true; targets = [] }))
          (split_host_port local_addr) c
  ]

  unfoldable pub handle_udp : List UdpEvent → Request → Conn → Outcome × Conn
  handle_udp events req c =
      let c' = record c { dest = host_port req.destination; method = codes "udp" } in
      elim (env.split_host_port env.client_local) [
        | err e ↦ (returned (some (network e)), c')
        | ok (host, _) ↦ listen_udp events host c'
      ]

  abbrev dispatch :
      List CopyEvent → List UdpEvent → Result SocksError Request × Conn → Outcome × Conn
  dispatch traffic events (err e, c) =
      (returned (some (protocol e)), write (error_bytes general_failure) c)
  dispatch traffic events (ok req, c) =
      let c' = record c { request = some req } in
      if req.command == connect
      then handle_tcp traffic req c'
      else if req.command == udp_associate
      then handle_udp events req c'
      else (
        returned (some (unsupported_command req.command)),
        write (error_bytes command_not_supported) c',
      )

  unfoldable pub handle_request : List CopyEvent → List UdpEvent → Conn → Outcome × Conn
  handle_request traffic events c = dispatch traffic events (reads (parse_client_request env.net) c)

  module _ (server : Credentials) where
    abbrev after_auth :
        List CopyEvent → List UdpEvent → Result SocksError (Bytes × Bytes) × Conn → Outcome × Conn
    after_auth traffic events (err e, c) = (returned (some (protocol e)), write (1 ∷ 1 ∷ []) c)
    after_auth traffic events (ok (user, pwd), c) =
        if not (str_eq user server.username) || not (str_eq pwd server.password)
        then (returned none, write (1 ∷ 1 ∷ []) c)
        else handle_request traffic events (write (1 ∷ 0 ∷ []) c)

    abbrev after_greeting :
        List CopyEvent → List UdpEvent → Result SocksError (Unit {0}) × Conn → Outcome × Conn
    after_greeting traffic events (err e, c) =
        (returned (some (protocol e)), write (socks5_version ∷ no_acceptable_auth ∷ []) c)
    after_greeting traffic events (ok _, c) =
        let c' = write (socks5_version ∷ auth_method server ∷ []) c in
        if not (need_auth server)
        then handle_request traffic events c'
        else after_auth traffic events (reads parse_client_auth c')

    unfoldable pub run : List CopyEvent → List UdpEvent → Conn → Outcome × Conn
    run traffic events c =
        after_greeting traffic events (reads (parse_client_greeting (auth_method server)) c)
