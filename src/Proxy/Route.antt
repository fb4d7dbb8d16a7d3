-- ===== src/Proxy/Route.antt =====
-- A connection of the proxy: the server of socks5.go with the credentials and the dialer that Start
-- gives it (socks_listener.go), down to Dial of the tunnel (tunnel.go).
pub mod Fate
pub mod Client
use piaproxy.Base.{ℕ, Bool, true, false, Option, none, some, List, Bytes, codes}
use piaproxy.Base.Result.{Result, ok, err}
use piaproxy.Net.{NetError, other}
use piaproxy.Tunnel
use piaproxy.Tunnel.{Tunnel}
use piaproxy.Socks.State.{Env, Credentials, Conn, CopyEvent, UdpEvent, Outcome}
use piaproxy.Socks.Conn
use piaproxy.Socks.Server.{new_conn}
use piaproxy.Socks.Wire.{SocksAddr}
use piaproxy.Socks.Listener.{
  SocksOpts, Lookup, DialError, lookup_failed, no_records, resolve_address,
}

-- What is outside of the program for one connection: the names, the netstacks by their number, and
-- the sockets on this side.
pub record Surroundings : Type 0 where
  pub lookup : Lookup
  -- DialContext of a netstack: the text of the new connection's LocalAddr.
  pub connect : ℕ → Bytes → Bytes → Result NetError Bytes
  pub client_local : Bytes
  pub listen_packet : Bytes → Result NetError Bytes
  pub write_target : SocksAddr → Bytes → Result NetError ℕ
  pub write_client : Bytes → Bytes → Result NetError ℕ

-- An error that wraps another counts as that one.
abbrev pub unwrapped : DialError → NetError
unwrapped (lookup_failed e) = e
unwrapped no_records = other (codes "no A records")

-- `dnsOverride != nil`.
abbrev pub has_override : SocksOpts → Bool
has_override opts = elim opts.dns_resolver_ip [ none ↦ false | some ip ↦ true ]

-- `Username` and `Password` of the server.
abbrev pub credentials_of : SocksOpts → Credentials
credentials_of opts = record { username = opts.username; password = opts.password }

module _ {F : Type 0} (world : Surroundings) (opts : SocksOpts) (t : Tunnel F) where
  abbrev dial_resolved : Bytes → Result DialError Bytes → Result NetError Bytes
  dial_resolved network (err e) = err (unwrapped e)
  dial_resolved network (ok address) = Tunnel.dial world.connect network address t

  -- The Dialer of the server.
  unfoldable pub dialer : Bytes → Bytes → Result NetError Bytes
  dialer network address =
      dial_resolved network (resolve_address world.lookup (has_override opts) address)

  -- The network of a connection whose dials find the tunnel as it is.
  unfoldable pub env_of : Env
  env_of = record {
    net = world.lookup.net;
    split_host_port = world.lookup.split_host_port;
    dial = dialer;
    client_local = world.client_local;
    listen_packet = world.listen_packet;
    write_target = world.write_target;
    write_client = world.write_client;
  }

  -- The goroutine of Serve for a client that will send `unread`.
  unfoldable pub serve_client : List CopyEvent → List UdpEvent → Bytes → Outcome × Conn
  serve_client traffic events unread =
      Conn.run env_of (credentials_of opts) traffic events (new_conn unread)
