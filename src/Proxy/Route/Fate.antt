-- ===== src/Proxy/Route/Fate.antt =====
-- What becomes of a CONNECT request while the proxy runs.
use piaproxy.Base.{
  ℕ, ◌≡◌, refl, ◌⊎◌, inl, inr, true, false, some, List, Bytes, codes, arith, Option-cases,
}
use piaproxy.Base.Result.{ok, err, Result-cases}
use piaproxy.Net.{NetError, tunnel_down}
use piaproxy.Tunnel
use piaproxy.Tunnel.{Tunnel, Floats, CityConfig, is_serving}
use piaproxy.Tunnel.Lifecycle.Invariant.{Holds, Free, Inv-serving}
use piaproxy.Socks.Wire.{Request, connect, general_failure}
use piaproxy.Socks.Addr.{host_port}
use piaproxy.Socks.Handshake.{parse_client_request}
use piaproxy.Socks.State.{Conn, CopyEvent, UdpEvent, Outcome, returned, network}
use piaproxy.Socks.Conn.{handle_request, handle_tcp, after_bound, relay, split_host_port, write}
use piaproxy.Socks.Conn.Replies.{failure, dialled, not_dialled, refused_reply}
use piaproxy.Socks.Listener.{SocksOpts, DialError, resolve_address}
use piaproxy.Proxy.{Proxy, launch, Reach}
use piaproxy.Proxy.Safety.{IsSafe, Reach-IsSafe}
use piaproxy.Proxy.Route.{Surroundings, has_override, unwrapped, dialer, env_of}

module _ {F : Type 0} (world : Surroundings) (opts : SocksOpts) where
  -- Why a dial fails: the name, a tunnel that does not serve, or its netstack.
  pub data Unreachable (t : Tunnel F) (dest : Bytes) (e : NetError) : Type 0 where
    unresolved :
        (x : DialError)
        → resolve_address world.lookup (has_override opts) dest ≡ err x
        → e ≡ unwrapped x
        → Unreachable t dest e
    no_tunnel : is_serving t.state ≡ false → e ≡ tunnel_down → Unreachable t dest e
    refused :
        (stack : ℕ) (address : Bytes)
        → t.net_net ≡ some stack
        → resolve_address world.lookup (has_override opts) dest ≡ ok address
        → world.connect stack (codes "tcp") address ≡ err e
        → Unreachable t dest e

  pub data Fate (t : Tunnel F) (c : Conn) (req : Request) (rest : Bytes) (traffic : List CopyEvent)
      : Outcome × Conn → Type 0 where
    -- One reply with the code general failure; nothing is copied.
    failed :
        (e : NetError) {r : Outcome × Conn}
        → Unreachable t (host_port req.destination) e
        → r ≡ (
          returned (some (network e)),
          write (failure general_failure) (dialled (env_of world opts t) req rest c),
        )
        → Fate t c req rest traffic r
    -- The bytes go through the netstack of a tunnel that serves.
    passed :
        (stack : ℕ) (address local_addr : Bytes) {r : Outcome × Conn}
        → is_serving t.state ≡ true
        → t.net_net ≡ some stack
        → resolve_address world.lookup (has_override opts) (host_port req.destination) ≡ ok address
        → world.connect stack (codes "tcp") address ≡ ok local_addr
        → r
          ≡ after_bound
              (env_of world opts t)
              (relay traffic)
              (split_host_port (env_of world opts t) local_addr)
              (dialled (env_of world opts t) req rest c)
        → Fate t c req rest traffic r

  dialer-cases :
      (t : Tunnel F) (dest : Bytes)
      → Holds t ⊎ Free t
      → ((e : NetError) × (dialer world opts t (codes "tcp") dest ≡ err e) × Unreachable t dest e)
        ⊎ ((stack : ℕ) × (address : Bytes) × (local_addr : Bytes) × (is_serving t.state ≡ true)
            × (t.net_net ≡ some stack)
            × (resolve_address world.lookup (has_override opts) dest ≡ ok address)
            × (world.connect stack (codes "tcp") address ≡ ok local_addr)
            × (dialer world opts t (codes "tcp") dest ≡ ok local_addr))
  unfolding dialer Tunnel.dial
  dialer-cases t dest phase =
      elim (Result-cases (resolve_address world.lookup (has_override opts) dest)) [
        | inr (x, e) ↦ inl (unwrapped x, rw e refl, unresolved x e refl)
        | inl (address, e) ↦ elim phase [
          | inr free ↦ inl (tunnel_down, rw (e, free.3) refl, no_tunnel free.0 refl)
          | inl holds ↦ elim (Option-cases t.net_net) [
            | inl absent ↦ absurd (holds.3 absent)
            | inr (stack, present) ↦
                elim (Result-cases (world.connect stack (codes "tcp") address)) [
                  | inr (x, f) ↦ inl (x, rw (e, present, f) refl, refused stack address present e f)
                  | inl (local_addr, f) ↦
                      inr (
                        stack,
                        address,
                        local_addr,
                        holds.0,
                        present,
                        e,
                        f,
                        rw (e, present, f) refl,
                      )
                ]
          ]
        ]
      ]

  handle-dialled :
      (t : Tunnel F) (c : Conn) (req : Request) (traffic : List CopyEvent) (events : List UdpEvent)
      (rest local_addr : Bytes)
      → parse_client_request world.lookup.net c.unread ≡ (ok req, rest)
      → req.command ≡ connect
      → dialer world opts t (codes "tcp") (host_port req.destination) ≡ ok local_addr
      → handle_request (env_of world opts t) traffic events c
        ≡ after_bound
            (env_of world opts t)
            (relay traffic)
            (split_host_port (env_of world opts t) local_addr)
            (dialled (env_of world opts t) req rest c)
  unfolding handle_request handle_tcp env_of
  handle-dialled t c req traffic events rest local_addr p cmd d = ground arith

  handle-failed :
      (t : Tunnel F) (c : Conn) (req : Request) (traffic : List CopyEvent) (events : List UdpEvent)
      (rest : Bytes) (e : NetError)
      → parse_client_request world.lookup.net c.unread ≡ (ok req, rest)
      → req.command ≡ connect
      → dialer world opts t (codes "tcp") (host_port req.destination) ≡ err e
      → handle_request (env_of world opts t) traffic events c ≡ (
        returned (some (network e)),
        write (failure general_failure) (dialled (env_of world opts t) req rest c),
      )
  unfolding env_of
  handle-failed t c req traffic events rest e p cmd d =
      refused_reply (env_of world opts t) traffic events
        (not_dialled req rest e p cmd d refl refl refl)

  serving_cases :
      (floats : Floats F) (p : Proxy F) → IsSafe p → Holds p.tunnel.tunnel ⊎ Free p.tunnel.tunnel
  serving_cases floats p v = elim (Inv-serving floats p.tunnel v.tunnel) [
    | inl (h, _) ↦ inl h
    | inr f ↦ inr f
  ]

  -- In every reachable state of a proxy, a CONNECT request that parses is either copied through
  -- the netstack of a tunnel that is up or degraded, to the address that the dialer makes of the
  -- destination, or it gets one reply general failure with nothing copied, because the name does
  -- not resolve, the tunnel is neither up nor degraded, or the netstack refuses.
  pub connect-Fate :
      (floats : Floats F) (cfg : CityConfig) (p : Proxy F)
      → Reach floats (launch floats cfg opts) p
      → (c : Conn) (req : Request) (rest : Bytes) (traffic : List CopyEvent)
        (events : List UdpEvent)
      → parse_client_request world.lookup.net c.unread ≡ (ok req, rest)
      → req.command ≡ connect
      → Fate p.tunnel.tunnel c req rest traffic
          (handle_request (env_of world opts p.tunnel.tunnel) traffic events c)
  connect-Fate floats cfg p r c req rest traffic events parsed cmd =
      let t = p.tunnel.tunnel in
      elim (dialer-cases t (host_port req.destination)
        (serving_cases floats p (Reach-IsSafe floats cfg opts p r))) [
          | inl (e, dial, why) ↦
              failed e why (handle-failed t c req traffic events rest e parsed cmd dial)
          | inr (stack, address, local_addr, s, present, resolved, dialed, dial) ↦
              passed stack address local_addr s present resolved dialed
                (handle-dialled t c req traffic events rest local_addr parsed cmd dial)
        ]
