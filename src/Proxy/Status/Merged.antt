-- ===== src/Proxy/Status/Merged.antt =====
-- What the status of a proxy shows while it runs.
use piaproxy.Base.{◌≡◌, ◌⊎◌, true, false, []}
use piaproxy.Net.{IpText}
use piaproxy.Tunnel.{Tunnel, is_serving, idle}
use piaproxy.Socks.Listener
use piaproxy.Socks.Listener.{Host}
use piaproxy.Proxy.{serving, ended}
use piaproxy.Proxy.Status.{Status, Moments}
use piaproxy.Proxy.Status.Parts.{ShowsServer, ShowsNoServer}

pub record Shows {F : Type 0} (net : IpText) (m : Moments F) (s : Status F) : Type 0 where
  pub city : (s.city ≡ m.fields.cfg.city) × (s.region ≡ m.fields.cfg.region)
  pub server :
      ((is_serving s.state ≡ true)
        × (m.fields.attached ≡ true)
        × ShowsServer net m.tunnel.tunnel.tunnel s)
      ⊎ ((is_serving s.state ≡ false) × ShowsNoServer s)
  pub listens :
      (s.listen ≡ m.fields.cfg.listen)
      ⊎ ((m.listener.stage ≡ serving) × (s.listen ≡ Listener.listen_addr m.listener.listener.self))
  pub conns : (s.conns ≡ []) ⊎ (m.listener.stage ≡ serving)
  pub after : m.fields.stage ≡ ended → (s.state ≡ idle) × (s.conns ≡ [])
