-- ===== src/Socks/Associate.antt =====
-- The UDP association: handleUDPRequest, getOrDialTargetConn, handleUDPResponse, and the loops of
-- transferUDP, one event at a time.
pub mod Targets
pub mod Invariant
pub mod Traffic
pub mod Passing
pub mod Relayed
pub mod Delivery
use piaproxy.Base.{
  ℕ, ◌==◌, ◌&&◌, ◌||◌, Bool, true, false, Option, none, some, List, [], ◌∷◌, ◌++◌, if◌then◌else◌,
  length, take, Bytes, codes, str_eq, map,
}
use piaproxy.Base.Result.{Result, ok, err}
use piaproxy.Net.{NetError, closed, eof, timed_out, other}
use piaproxy.Socks.Wire.{SocksAddr, UdpRequest, SocksError}
use piaproxy.Socks.Addr.{host_port}
use piaproxy.Socks.Datagram.{parse_udp_request, marshal_udp}
use piaproxy.Socks.State.{
  Env, Conn, Target, UdpEvent, from_client, from_target, tcp_done, Outcome, returned, running, wrap,
  udp_associated,
}

abbrev pub buffer_size : ℕ
buffer_size = 8192

-- What the two handlers return: the wrapped error, whose Unwrap is the network's error, or a
-- message of the parser.
pub data UdpError : Type 0 where
  read_failed dial_failed write_failed : NetError → UdpError
  parse_failed marshal_failed : SocksError → UdpError
  short_write : UdpError

-- `errors.Unwrap(err)`, where it is an error of the network.
abbrev cause : UdpError → Option NetError
cause (read_failed e) = some e
cause (dial_failed e) = some e
cause (write_failed e) = some e
cause _ = none

unfoldable pub is_timeout : UdpError → Bool
is_timeout e = elim (cause e) [ some timed_out ↦ true | _ ↦ false ]

-- `errors.Is(err, net.ErrClosed)`.
unfoldable pub is_closed : UdpError → Bool
is_closed e = elim (cause e) [ some closed ↦ true | _ ↦ false ]

-- `errors.Is(err, io.EOF)`.
unfoldable pub is_eof : UdpError → Bool
is_eof e = elim (cause e) [ some eof ↦ true | _ ↦ false ]

unfoldable pub addr_eq : SocksAddr → SocksAddr → Bool
addr_eq a b = a.addr_type == b.addr_type && (str_eq a.addr b.addr && a.port == b.port)

-- Whether `udpTargetConns` has the address.
unfoldable pub has_target : SocksAddr → List Target → Bool
has_target a [] = false
has_target a (t ∷ ts) = if addr_eq t.target a then true else has_target a ts

-- Whether the goroutine of the target still reads.
unfoldable pub is_live : SocksAddr → List Target → Bool
is_live a [] = false
is_live a (t ∷ ts) = if addr_eq t.target a then t.live else is_live a ts

-- The goroutine of a target returns.
unfoldable pub stop_target : SocksAddr → List Target → List Target
stop_target a [] = []
stop_target a (t ∷ ts) =
    if addr_eq t.target a then record t { live = false } ∷ ts else t ∷ stop_target a ts

-- The result of a Write of `bytes`.
abbrev pub wrote : Bytes → Result NetError ℕ → Result UdpError (Unit {0})
wrote bytes (err e) = err (write_failed e)
wrote bytes (ok n) = if n == length bytes then ok tt else err short_write

-- What the loop of the client's goroutine does with the result: a closed connection ends it,
-- which closes the targets and cancels the context; a timeout and any other error go round again.
abbrev pub after_request : Result UdpError (Unit {0}) × Conn → Conn
after_request (ok _, c) = c
after_request (err e, c) =
    if is_timeout e
    then c
    else if is_closed e
    then record c { listening = false; targets = [] }
    else c

abbrev pub after_response : SocksAddr → Result UdpError (Unit {0}) × Conn → Conn
after_response a (ok _, c) = c
after_response a (err e, c) =
    if is_timeout e
    then c
    else if is_closed e || is_eof e
    then record c { targets = stop_target a c.targets }
    else c

module _ (env : Env) where
  unfoldable pub get_or_dial : SocksAddr → Conn → Result UdpError (Unit {0}) × Conn
  get_or_dial a c =
      if has_target a c.targets
      then (ok tt, c)
      else let c' = record c { dials = c.dials ++ ((codes "udp", host_port a) ∷ []) } in
        elim (env.dial (codes "udp") (host_port a)) [
          | err e ↦ (err (dial_failed e), c')
          | ok _ ↦ (ok tt, record c' { targets = record { target = a; live = true } ∷ c'.targets })
        ]

  abbrev pub send_to_target :
      SocksAddr → Bytes → Result UdpError (Unit {0}) × Conn → Result UdpError (Unit {0}) × Conn
  send_to_target a payload (err e, c) = (err e, c)
  send_to_target a payload (ok _, c) = (
    wrote payload (env.write_target a payload),
    record c { to_targets = c.to_targets ++ ((a, payload) ∷ []) },
  )

  abbrev pub forward :
      Result SocksError (UdpRequest × Bytes) → Conn → Result UdpError (Unit {0}) × Conn
  forward (err e) c = (err (parse_failed e), c)
  forward (ok (req, payload)) c = send_to_target req.addr payload (get_or_dial req.addr c)

  -- The datagram is cut to the buffer by ReadFrom.
  unfoldable pub handle_udp_request :
      Result NetError (Bytes × Bytes) → Conn → Result UdpError (Unit {0}) × Conn
  handle_udp_request (err e) c = (err (read_failed e), c)
  handle_udp_request (ok (datagram, addr)) c =
      forward (parse_udp_request env.net (take buffer_size datagram))
        (record c { udp_client_addr = some addr })

  -- WriteTo with a nil address fails.
  abbrev send_to_client : Bytes → Conn → Option Bytes → Result UdpError (Unit {0}) × Conn
  send_to_client bytes c none = (err (write_failed (other (codes "missing address"))), c)
  send_to_client bytes c (some addr) = (
    wrote bytes (env.write_client addr bytes),
    record c { to_client = c.to_client ++ ((addr, bytes) ∷ []) },
  )

  unfoldable pub handle_udp_response :
      SocksAddr → Result NetError Bytes → Conn → Result UdpError (Unit {0}) × Conn
  handle_udp_response target (err e) c = (err (read_failed e), c)
  handle_udp_response target (ok bytes) c =
      elim (marshal_udp env.net (record { frag = 0; addr = target })) [
        | err e ↦ (err (marshal_failed e), c)
        | ok pkt ↦ send_to_client (pkt ++ take buffer_size bytes) c c.udp_client_addr
      ]

  -- An event of a goroutine that has returned does not happen.
  unfoldable pub transfer_udp : List UdpEvent → Conn → Outcome × Conn
  transfer_udp [] c = (running, c)
  transfer_udp (from_client r ∷ es) c =
      transfer_udp es (if c.listening then after_request (handle_udp_request r c) else c)
  transfer_udp (from_target a r ∷ es) c =
      transfer_udp es
        (if is_live a c.targets then after_response a (handle_udp_response a r c) else c)
  transfer_udp (tcp_done e ∷ es) c = (returned (wrap udp_associated e), c)
