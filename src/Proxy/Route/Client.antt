-- ===== src/Proxy/Route/Client.antt =====
-- What becomes of a client of the proxy, from its greeting to its traffic.
use piaproxy.Base.{
  ◌≡◌, ◌≢◌, refl, inl, inr, true, false, some, List, [], ◌∷◌, ◌++◌, ◌==◌, ==_iff, contains,
  str_eq_iff, Bytes, arith, Bool-cases,
}
use piaproxy.Base.Result.{ok, err}
use piaproxy.Tunnel.{Tunnel, Floats, CityConfig}
use piaproxy.Socks.Wire.{
  SocksError, Request, connect, udp_associate, general_failure, command_not_supported,
}
use piaproxy.Socks.Reader.{Reader-cases}
use piaproxy.Socks.Handshake.{parse_client_request}
use piaproxy.Socks.State.{
  Conn, CopyEvent, UdpEvent, Outcome, returned, protocol, unsupported_command,
}
use piaproxy.Socks.Handshake.Formats.{greeting, credentials}
use piaproxy.Socks.Server.{new_conn}
use piaproxy.Socks.Conn.{handle_request, handle_udp, need_auth, write}
use piaproxy.Socks.Conn.Auth.{TurnedAway, open_server, with_password, run-Admitted}
use piaproxy.Socks.Conn.Replies.{failure, bad_request, bad_command, refused_reply}
use piaproxy.Socks.Listener.{SocksOpts}
use piaproxy.Proxy.{Proxy, launch, Reach}
use piaproxy.Proxy.Route.{Surroundings, credentials_of, env_of, serve_client}
use piaproxy.Proxy.Route.Fate.{Fate, connect-Fate}

no_credentials :
    (opts : SocksOpts)
    → need_auth (credentials_of opts) ≡ false
    → (opts.username ≡ []) × (opts.password ≡ [])
unfolding need_auth
no_credentials opts h = ground (arith, str_eq_iff opts.username [], str_eq_iff opts.password [])

module _ {F : Type 0} (world : Surroundings) (opts : SocksOpts) (traffic : List CopyEvent)
    (events : List UdpEvent) where
  -- What becomes of the request that stands next in what the client sends.
  pub data Handled (t : Tunnel F) (c : Conn) (r : Outcome × Conn) : Type 0 where
    malformed :
        (e : SocksError) (rest : Bytes)
        → parse_client_request world.lookup.net c.unread ≡ (err e, rest)
        → r ≡ (
          returned (some (protocol e)),
          write (failure general_failure) (record c { unread = rest }),
        )
        → Handled t c r
    unsupported :
        (req : Request) (rest : Bytes)
        → parse_client_request world.lookup.net c.unread ≡ (ok req, rest)
        → req.command ≢ connect
        → req.command ≢ udp_associate
        → r ≡ (
          returned (some (unsupported_command req.command)),
          write (failure command_not_supported) (record c { unread = rest; request = some req }),
        )
        → Handled t c r
    connects :
        (req : Request) (rest : Bytes)
        → parse_client_request world.lookup.net c.unread ≡ (ok req, rest)
        → req.command ≡ connect
        → Fate world opts t c req rest traffic r
        → Handled t c r
    associates :
        (req : Request) (rest : Bytes)
        → parse_client_request world.lookup.net c.unread ≡ (ok req, rest)
        → req.command ≡ udp_associate
        → r
          ≡ handle_udp
              (env_of world opts t)
              events
              req
              (record c { unread = rest; request = some req })
        → Handled t c r

  handle_associate :
      (t : Tunnel F) (c : Conn) (req : Request) (rest : Bytes)
      → parse_client_request world.lookup.net c.unread ≡ (ok req, rest)
      → req.command ≡ udp_associate
      → handle_request (env_of world opts t) traffic events c
        ≡ handle_udp
            (env_of world opts t)
            events
            req
            (record c { unread = rest; request = some req })
  unfolding handle_request env_of
  handle_associate t c req rest p cmd = ground arith

  handle_request-Handled :
      (floats : Floats F) (cfg : CityConfig) (p : Proxy F)
      → Reach floats (launch floats cfg opts) p
      → (c : Conn)
      → Handled p.tunnel.tunnel c
          (handle_request (env_of world opts p.tunnel.tunnel) traffic events c)
  unfolding env_of
  handle_request-Handled floats cfg p r c =
      elim (Reader-cases (parse_client_request world.lookup.net) c.unread) [
        | inr (e, rest, f) ↦ malformed e rest f (
            refused_reply (env_of world opts p.tunnel.tunnel) traffic events
              (bad_request e rest f refl refl refl))
        | inl (req, rest, f) ↦ elim (Bool-cases (req.command == connect)) [
          | inl y ↦ connects req rest f ((==_iff _ connect).0 y) (
              connect-Fate world opts floats cfg p r c req rest traffic events f
                ((==_iff _ connect).0 y))
          | inr n ↦ elim (Bool-cases (req.command == udp_associate)) [
            | inl y ↦
                associates req rest f ((==_iff _ udp_associate).0 y)
                  (handle_associate p.tunnel.tunnel c req rest f ((==_iff _ udp_associate).0 y))
            | inr m ↦ unsupported req rest f (ground arith) (ground arith) (
                refused_reply (env_of world opts p.tunnel.tunnel) traffic events
                  (bad_command req rest f (ground arith) (ground arith) refl refl refl))
          ]
        ]
      ]

  -- The client of a connection, by what it sent.
  pub data Served (t : Tunnel F) (unread : Bytes) (r : Outcome × Conn) : Type 0 where
    rejected :
        TurnedAway (env_of world opts t) (credentials_of opts) traffic events (new_conn unread) r.1
        → Served t unread r
    unauthenticated :
        (methods rest : Bytes)
        → opts.username ≡ []
        → opts.password ≡ []
        → contains 0 methods ≡ true
        → unread ≡ greeting methods ++ rest
        → Handled t (write (5 ∷ 0 ∷ []) (new_conn rest)) r
        → Served t unread r
    authenticated :
        (methods rest : Bytes)
        → contains 2 methods ≡ true
        → unread ≡ greeting methods ++ (credentials opts.username opts.password ++ rest)
        → Handled t (write (1 ∷ 0 ∷ []) (write (5 ∷ 2 ∷ []) (new_conn rest))) r
        → Served t unread r

  -- In every reachable state of a proxy, a client is turned away before any dial, copy or request,
  -- with one of the two refusals; or its greeting offers the required method and, if the proxy has
  -- a username or a password, it sent exactly these, and then its request is handled: it is told
  -- that it is malformed or unsupported, or it is an association, or a CONNECT that is copied
  -- through the netstack of a tunnel that is up or degraded to the address that the dialer makes
  -- of its destination, or gets the one reply general failure with nothing copied, because the
  -- name does not resolve, the tunnel is neither up nor degraded, or the netstack refuses.
  pub serve_client-Served :
      (floats : Floats F) (cfg : CityConfig) (p : Proxy F)
      → Reach floats (launch floats cfg opts) p
      → (unread : Bytes)
      → Served p.tunnel.tunnel unread
          (serve_client world opts p.tunnel.tunnel traffic events unread)
  unfolding serve_client
  serve_client-Served floats cfg p r unread =
      let t = p.tunnel.tunnel in
      elim (run-Admitted (env_of world opts t) (credentials_of opts) traffic events
        (new_conn unread)) [
          | inr away ↦ rejected away
          | inl (open_server methods rest n k u e) ↦
              let (nu, np) = no_credentials opts n in
              unauthenticated methods rest nu np k u
                (rw e (handle_request-Handled floats cfg p r _))
          | inl (with_password methods rest n k u e) ↦
              authenticated methods rest k u (rw e (handle_request-Handled floats cfg p r _))
        ]
