-- ===== src/Tunnel/Status/Shown.antt =====
-- What a status shows of a tunnel that runs.
use piaproxy.Base.{
  ℕ, ◌≡◌, refl, ◌⊎◌, inl, inr, true, false, Option, none, some, [], arith, Option-cases,
}
use piaproxy.Base.Int.{pos}
use piaproxy.Net.{IpText}
use piaproxy.Pia.Client.{WgSession, PiaClient}
use piaproxy.Tunnel.{Tunnel, Floats, CityConfig, is_serving}
use piaproxy.Tunnel.Lifecycle.{Sys, start, Reach}
use piaproxy.Tunnel.Lifecycle.Invariant.{Holds, Free, Inv-serving, Reach-Inv}
use piaproxy.Tunnel.Status.{TunnelStatus, snapshot}

module _ {F : Type 0} (net : IpText) where
  -- The status of a tunnel that serves names the server and the peer address of its session.
  pub record ShowsSession (t : Tunnel F) (s : TunnelStatus F) : Type 0 where
    pub session : WgSession
    pub present : t.session ≡ some session
    pub serves : is_serving s.state ≡ true
    pub cn : s.server_cn ≡ session.server.cn
    pub ip : s.server_ip ≡ session.server.ip
    pub port : s.server_port ≡ session.server.port
    pub peer : s.peer_ip ≡ net.ip_string session.peer_ip

  -- That of any other names none, and no time of connection.
  pub record ShowsNone (s : TunnelStatus F) : Type 0 where
    pub idle : is_serving s.state ≡ false
    pub cn : s.server_cn ≡ []
    pub ip : s.server_ip ≡ []
    pub port : s.server_port ≡ pos 0
    pub peer : s.peer_ip ≡ []
    pub connected : s.connected_at_ms ≡ 0
    pub uptime : s.uptime_sec ≡ 0

  pub snapshot-Holds :
      (now : ℕ) (pia : Option PiaClient) (t : Tunnel F)
      → Holds t
      → ShowsSession t (snapshot net now pia t)
  unfolding snapshot
  snapshot-Holds now none t (s, there, _, _) = elim (Option-cases t.session) [
    | inl e ↦ absurd (there e)
    | inr (session, e) ↦ rw e (record {
      session = session;
      present = refl;
      serves = s;
      cn = refl;
      ip = refl;
      port = refl;
      peer = refl;
    })
  ]
  snapshot-Holds now (some pia) t (s, there, _, _) = elim (Option-cases t.session) [
    | inl e ↦ absurd (there e)
    | inr (session, e) ↦ rw e (record {
      session = session;
      present = refl;
      serves = s;
      cn = refl;
      ip = refl;
      port = refl;
      peer = refl;
    })
  ]

  pub snapshot-Free :
      (now : ℕ) (pia : Option PiaClient) (t : Tunnel F)
      → Free t
      → ShowsNone (snapshot net now pia t)
  unfolding snapshot
  snapshot-Free now none t (s, e, _, _) = ground arith
  snapshot-Free now (some pia) t (s, e, _, _) = ground arith

  -- In every reachable state of Run, the status either has a state that is up or degraded and
  -- names the server, port and peer of the session that is there, or has another state and names
  -- none, with no time of connection and no uptime.
  snapshot-shows :
      (floats : Floats F) (cfg : CityConfig) (now : ℕ) (pia : Option PiaClient) (s : Sys F)
      → Reach floats (start floats cfg) s
      → ShowsSession s.tunnel (snapshot net now pia s.tunnel)
        ⊎ ShowsNone (snapshot net now pia s.tunnel)
  snapshot-shows floats cfg now pia s r = elim (Inv-serving floats s (Reach-Inv floats cfg s r)) [
    | inl (h, _) ↦ inl (snapshot-Holds now pia s.tunnel h)
    | inr f ↦ inr (snapshot-Free now pia s.tunnel f)
  ]
