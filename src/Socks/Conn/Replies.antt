-- ===== src/Socks/Conn/Replies.antt =====
-- The replies of a connection: what the client is told on each path of a request.
use piaproxy.Base.{
  ℕ, ◌<◌, ◌≡◌, ◌≢◌, refl, inl, inr, none, some, List, [], ◌∷◌, ◌++◌, arith, if◌then◌else◌, ltb,
  length, str_eq, Bytes, codes, Option-cases,
}
use piaproxy.Base.Result.{ok, err}
use piaproxy.Net.{IpText, NetError, to4, to16, v4_in_v6_prefix}
use piaproxy.Socks.Wire.{
  SocksError, Request, success, error_response, general_failure, command_not_supported, connect,
  udp_associate,
}
use piaproxy.Socks.Addr.{marshal_addr, get_addr_type, host_port, big_endian}
use piaproxy.Socks.Handshake.{parse_client_request, marshal_response}
use piaproxy.Socks.State.{
  protocol, Outcome, Env, Conn, CopyEvent, UdpEvent, returned, network, unsupported_command,
}
use piaproxy.Socks.Conn.{relay, split_host_port, write, success_bytes, handle_tcp, handle_request}

-- The reply with a code and the unspecified address.
abbrev pub failure : ℕ → Bytes
failure code = 5 ∷ code ∷ 0 ∷ 1 ∷ 0 ∷ 0 ∷ 0 ∷ 0 ∷ 0 ∷ 0 ∷ []

module _ (net : IpText) where
  to4_unspecified : to4 (v4_in_v6_prefix ++ 0 ∷ 0 ∷ 0 ∷ 0 ∷ []) ≡ some (0 ∷ 0 ∷ 0 ∷ 0 ∷ [])
  unfolding to4 str_eq
  to4_unspecified = refl

  -- An error reply is marshalled whatever its code.
  pub marshal-error_response :
      (code : ℕ) → marshal_response net (error_response code) ≡ ok (failure code)
  unfolding marshal_response marshal_addr error_response
  marshal-error_response code = ground (arith, net.parse_ip-unspecified, to4_unspecified)

  -- The bytes of the IP address that a text stands for, or the text as a domain name.
  abbrev pub bound_host : Bytes → Bytes
  bound_host host = elim (net.parse_ip host) [
    | none ↦ length host ∷ host
    | some ip ↦ elim (to4 ip) [ some v4 ↦ v4 | none ↦ ip ]
  ]

  to16_parsed : (host ip : Bytes) → net.parse_ip host ≡ some ip → to16 ip ≡ some ip
  unfolding to16
  to16_parsed host ip e = ground (arith, net.parse_ip-length host ip e)

  -- The code that a reply with a bound address gets: a name must fit its size byte.
  abbrev pub bound_code : Bytes → ℕ
  bound_code host = elim (net.parse_ip host) [
    | some ip ↦ success
    | none ↦ if ltb 255 (length host) then general_failure else success
  ]

  -- An address whose type getAddrType found is marshalled, if a name fits its size byte.
  marshal_get_addr_type :
      (host : Bytes) (port : ℕ)
      → bound_code host ≡ success
      → marshal_addr net (record { addr_type = get_addr_type net host; addr = host; port = port })
        ≡ ok (get_addr_type net host ∷ (bound_host host ++ big_endian port))
  unfolding marshal_addr get_addr_type
  marshal_get_addr_type host port h = elim (Option-cases (net.parse_ip host)) [
    | inl e ↦ ground arith
    | inr (ip, e) ↦ ground (arith, to16_parsed host ip e)
  ]

module _ (env : Env) where
  -- The reply that reports a connection names the address that the text of LocalAddr stands for.
  pub success_bytes_lem :
      (host : Bytes) (port : ℕ)
      → bound_code env.net host ≡ success
      → success_bytes env host port
        ≡ 5 ∷ 0 ∷ 0 ∷ get_addr_type env.net host ∷ (bound_host env.net host ++ big_endian port)
  unfolding success_bytes marshal_response
  success_bytes_lem host port h = ground (arith, marshal_get_addr_type env.net host port h)

  -- A name that does not fit is reported as a failure.
  pub success_bytes-long :
      (host : Bytes) (port : ℕ)
      → env.net.parse_ip host ≡ none
      → 255 < length host
      → success_bytes env host port ≡ failure general_failure
  unfolding success_bytes marshal_response marshal_addr get_addr_type
  success_bytes-long host port e long =
      ground (arith, marshal-error_response env.net general_failure)

  -- The connection once a CONNECT request for `req` has been read and dialled.
  abbrev pub dialled : Request → Bytes → Conn → Conn
  dialled req rest c = record c {
    unread = rest;
    request = some req;
    dest = host_port req.destination;
    method = codes "tcp";
    dials = c.dials ++ ((codes "tcp", host_port req.destination) ∷ []);
  }

  -- The ways in which a request is refused: the outcome, the code, and the connection before the
  -- reply is written.
  pub data Refusal (c : Conn) (out : Outcome) (code : ℕ) (d : Conn) : Type 0 where
    bad_request :
        (e : SocksError) (rest : Bytes)
        → parse_client_request env.net c.unread ≡ (err e, rest)
        → out ≡ returned (some (protocol e))
        → code ≡ general_failure
        → d ≡ record c { unread = rest }
        → Refusal c out code d
    bad_command :
        (req : Request) (rest : Bytes)
        → parse_client_request env.net c.unread ≡ (ok req, rest)
        → req.command ≢ connect
        → req.command ≢ udp_associate
        → out ≡ returned (some (unsupported_command req.command))
        → code ≡ command_not_supported
        → d ≡ record c { unread = rest; request = some req }
        → Refusal c out code d
    not_dialled :
        (req : Request) (rest : Bytes) (e : NetError)
        → parse_client_request env.net c.unread ≡ (ok req, rest)
        → req.command ≡ connect
        → env.dial (codes "tcp") (host_port req.destination) ≡ err e
        → out ≡ returned (some (network e))
        → code ≡ general_failure
        → d ≡ dialled req rest c
        → Refusal c out code d

  -- A request that does not parse, has another command, or cannot be dialled gets one reply, with
  -- the code general failure, command not supported, or general failure for every error of the
  -- dialer, and its error is returned.
  pub refused_reply :
      {c : Conn} {out : Outcome} {code : ℕ} {d : Conn} (traffic : List CopyEvent)
      (events : List UdpEvent)
      → Refusal c out code d
      → handle_request env traffic events c ≡ (out, write (failure code) d)
  unfolding handle_request handle_tcp
  refused_reply traffic events (bad_request e rest p o k s) =
      ground (arith, marshal-error_response env.net general_failure)
  refused_reply traffic events (bad_command req rest p n1 n3 o k s) =
      ground (arith, marshal-error_response env.net command_not_supported)
  refused_reply traffic events (not_dialled req rest e p cmd dial o k s) =
      ground (arith, marshal-error_response env.net general_failure)

  fits : (host : Bytes) → length host < 256 → bound_code env.net host ≡ success
  fits host h = elim (Option-cases (env.net.parse_ip host)) [
    | inl e ↦ ground arith
    | inr (ip, e) ↦ ground arith
  ]

  -- A CONNECT request that parses and is dialled, with a local address that splits into a host
  -- below 256 bytes and a port, gets the reply success with that address, under the type that
  -- getAddrType finds, and then the bytes are copied.
  pub connected_reply :
      (c : Conn) (req : Request) (traffic : List CopyEvent) (events : List UdpEvent)
      (rest local_addr host : Bytes) (port : ℕ)
      → parse_client_request env.net c.unread ≡ (ok req, rest)
      → req.command ≡ connect
      → env.dial (codes "tcp") (host_port req.destination) ≡ ok local_addr
      → split_host_port env local_addr ≡ ok (host, port)
      → length host < 256
      → handle_request env traffic events c
        ≡ relay traffic (
            write
              (5
                ∷ 0
                ∷ 0
                ∷ get_addr_type env.net host
                ∷ (bound_host env.net host ++ big_endian port))
              (dialled req rest c))
  unfolding handle_request handle_tcp
  connected_reply c req traffic events rest local_addr host port p cmd d s l =
      ground (arith, success_bytes_lem host port (fits host l))
