-- ===== src/Proxy/Status/Parts.antt =====
-- What the tunnel and the listener show of themselves in the status of a proxy.
use piaproxy.Base.{
  ℕ, ◌≡◌, refl, ◌∙◌, subst, ◌⊎◌, inl, inr, true, false, Option, none, some, [], arith,
}
use piaproxy.Net.{IpText}
use piaproxy.Pia.Client.{WgSession, PiaClient}
use piaproxy.Tunnel.{Tunnel, Floats, is_serving}
use piaproxy.Tunnel.Lifecycle.Invariant.{Inv-serving}
use piaproxy.Tunnel.Status as TunnelView
use piaproxy.Tunnel.Status.{TunnelStatus}
use piaproxy.Tunnel.Status.Shown.{snapshot-Holds, snapshot-Free}
use piaproxy.Socks.Listener
use piaproxy.Socks.Listener.{SocksOpts, Host, ListenerStatus}
use piaproxy.Socks.Listener.Sockets
use piaproxy.Proxy.{
  Stage, polling, ticking, leaving, serving, joining, ended, aborting, aborted, draining, Proxy,
}
use piaproxy.Proxy.Stages.{InStage}
use piaproxy.Proxy.Safety.{IsSafe}
use piaproxy.Proxy.Status.{Status, show_tunnel, show_listener}

-- The status names the server and the peer of the session, if it is one of a tunnel that serves.
abbrev pub ShowsServer : {F : Type 0} → IpText → Tunnel F → Status F → Type 0
ShowsServer net t s =
    (session : WgSession) × (t.session ≡ some session)
    × (s.server_cn ≡ session.server.cn)
    × (s.server_ip ≡ session.server.ip)
    × (s.server_port ≡ session.server.port)
    × (s.peer_ip ≡ net.ip_string session.peer_ip)

abbrev pub ShowsNoServer : {F : Type 0} → Status F → Type 0
ShowsNoServer s =
    (s.server_cn ≡ [])
    × (s.server_ip ≡ [])
    × (s.peer_ip ≡ [])
    × (s.connected_at_ms ≡ 0)
    × (s.uptime_sec ≡ 0)

module _ {F : Type 0} where
  -- What the listener does not change.
  abbrev pub Keeps : ListenerStatus → Status F → Type 0
  Keeps ls s =
      let u = show_listener ls s in
      (u.city ≡ s.city)
      × (u.region ≡ s.region)
      × (u.state ≡ s.state)
      × (u.server_cn ≡ s.server_cn)
      × (u.server_ip ≡ s.server_ip)
      × (u.server_port ≡ s.server_port)
      × (u.peer_ip ≡ s.peer_ip)
      × (u.connected_at_ms ≡ s.connected_at_ms)
      × (u.uptime_sec ≡ s.uptime_sec)
      × (u.conns ≡ ls.conns)
      × ((u.listen ≡ s.listen) ⊎ ((ls.bound ≡ true) × (u.listen ≡ ls.addr)))

  pub show_listener-Keeps : (ls : ListenerStatus) (s : Status F) → Keeps ls s
  show_listener-Keeps ls s = ground arith

module _ {F : Type 0} (floats : Floats F) (net : IpText) (now : ℕ) (pia : Option PiaClient) where
  abbrev pub tunnel_view : Proxy F → TunnelStatus F
  tunnel_view p = TunnelView.snapshot net now pia p.tunnel.tunnel

  -- A listener that is not started shows no address of its own and no connection.
  off_listener :
      (h : Host)
      → Sockets.Inv h
      → h.self.started ≡ false
      → ((Listener.snapshot h).bound ≡ false) × ((Listener.snapshot h).conns ≡ [])
  unfolding Listener.snapshot
  off_listener h v off = ground (arith, v.agrees)

  off_or_serving :
      (p : Proxy F) (st : Stage)
      → p.stage ≡ st
      → InStage st p
      → (p.stage ≡ serving) ⊎ (p.listener.self.started ≡ false)
  off_or_serving p polling at h = ground arith
  off_or_serving p ticking at h = ground arith
  off_or_serving p leaving at h = ground arith
  off_or_serving p serving at h = inl at
  off_or_serving p (draining none) at h = ground arith
  off_or_serving p (draining (some id)) at h = ground arith
  off_or_serving p joining at h = ground arith
  off_or_serving p ended at h = ground arith
  off_or_serving p aborting at h = ground arith
  off_or_serving p aborted at h = ground arith

  pub detached : (p : Proxy F) → IsSafe p → p.stage ≡ ended → p.attached ≡ false
  detached p v at = (subst (λ st. InStage st p) at v.stage).1

  shown_addr : (h : Host) → (Listener.snapshot h).addr ≡ Listener.listen_addr h.self
  unfolding Listener.snapshot
  shown_addr h = refl

  -- A listener part shows an address or a connection of its own only while Run serves.
  pub listener_part :
      (r : Proxy F) (s : Status F)
      → IsSafe r
      → let u = show_listener (Listener.snapshot r.listener) s in
        ((u.listen ≡ s.listen)
          ⊎ ((r.stage ≡ serving) × (u.listen ≡ Listener.listen_addr r.listener.self)))
        × ((u.conns ≡ []) ⊎ (r.stage ≡ serving))
  listener_part r s v =
      let keeps = show_listener-Keeps (Listener.snapshot r.listener) s in
      elim (off_or_serving r r.stage refl v.stage) [
        | inl at ↦ (
          elim keeps.10 [ inl e ↦ inl e | inr (bound, e) ↦ inr (at, e ∙ shown_addr r.listener) ],
          inr at,
        )
        | inr off ↦
            let (unbound, no_conns) = off_listener r.listener v.listener off in
            (inl (ground (arith, keeps.10)), inl (keeps.9 ∙ no_conns))
      ]

  -- The tunnel part shows the session of a tunnel that serves.
  pub tunnel_part :
      (q : Proxy F) (s : Status F)
      → IsSafe q
      → let u = show_tunnel (tunnel_view q) s in
        ((is_serving u.state ≡ true) × ShowsServer net q.tunnel.tunnel u)
        ⊎ ((is_serving u.state ≡ false) × ShowsNoServer u)
  tunnel_part q s v = elim (Inv-serving floats q.tunnel v.tunnel) [
    | inl (holds, _) ↦
        let shown = snapshot-Holds net now pia q.tunnel.tunnel holds in
        inl
          (shown.serves, (shown.session, shown.present, shown.cn, shown.ip, shown.port, shown.peer))
    | inr free ↦
        let shown = snapshot-Free net now pia q.tunnel.tunnel free in
        inr (shown.idle, (shown.cn, shown.ip, shown.peer, shown.connected, shown.uptime))
  ]
