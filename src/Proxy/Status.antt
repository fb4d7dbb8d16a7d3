-- ===== src/Proxy/Status.antt =====
-- `Status` and `Snapshot` of proxy.go: what the tunnel and the listener show, as one record.
pub mod Parts
pub mod Merged
use piaproxy.Base.{
  ℕ, Bool, true, false, Option, none, some, List, [], ◌∷◌, if◌then◌else◌, Bytes, ◌&&◌, not, str_eq,
}
use piaproxy.Base.Int.{ℤ, pos, negsuc}
use piaproxy.Net.{IpText}
use piaproxy.Pia.Client.{PiaClient}
use piaproxy.Tunnel.{Floats, State, idle, LastError, no_error, CityConfig}
use piaproxy.Tunnel.Status as TunnelView
use piaproxy.Tunnel.Status.{TunnelStatus}
use piaproxy.Socks.Server.{ConnInfo}
use piaproxy.Socks.Listener
use piaproxy.Socks.Listener.{ListenerStatus}
use piaproxy.Proxy.{Proxy}

pub record Status (F : Type 0) : Type 0 where
  pub city : Bytes
  pub region : Bytes
  pub listen : Bytes
  pub state : State
  pub last_error : LastError
  pub server_cn : Bytes
  pub server_ip : Bytes
  pub server_port : ℤ
  pub peer_ip : Bytes
  pub connected_at_ms : ℕ
  pub add_key_at_ms : ℕ
  pub uptime_sec : ℕ
  pub handshake_ago_s : ℤ
  pub rx_bytes : ℕ
  pub tx_bytes : ℕ
  pub rx_rate : F
  pub tx_rate : F
  pub probe_at_ms : ℕ
  pub probe_ok : Bool
  pub probe_status : Bytes
  pub probe_latency_ms : ℕ
  pub ping_latency_ms : ℤ
  pub probe_count : ℕ
  pub probe_fails : ℕ
  pub connect_tries : ℕ
  pub connect_fails : ℕ
  pub auth_token : Bytes
  pub auth_token_acquired_at_ms : ℕ
  pub conns : List ConnInfo

-- A proxy at three moments, one after the other.
pub record Moments (F : Type 0) : Type 0 where
  pub fields : Proxy F
  pub tunnel : Proxy F
  pub listener : Proxy F

module _ {F : Type 0} where
  abbrev pub empty_status : Floats F → CityConfig → Status F
  empty_status floats cfg = record {
    city = cfg.city;
    region = cfg.region;
    listen = cfg.listen;
    state = idle;
    last_error = no_error;
    server_cn = [];
    server_ip = [];
    server_port = pos 0;
    peer_ip = [];
    connected_at_ms = 0;
    add_key_at_ms = 0;
    uptime_sec = 0;
    handshake_ago_s = negsuc 0;
    rx_bytes = 0;
    tx_bytes = 0;
    rx_rate = floats.zero_rate;
    tx_rate = floats.zero_rate;
    probe_at_ms = 0;
    probe_ok = false;
    probe_status = [];
    probe_latency_ms = 0;
    ping_latency_ms = pos 0;
    probe_count = 0;
    probe_fails = 0;
    connect_tries = 0;
    connect_fails = 0;
    auth_token = [];
    auth_token_acquired_at_ms = 0;
    conns = [];
  }

  abbrev pub show_tunnel : TunnelStatus F → Status F → Status F
  show_tunnel ts s = record s {
    state = ts.state;
    last_error = ts.last_error;
    server_cn = ts.server_cn;
    server_ip = ts.server_ip;
    server_port = ts.server_port;
    peer_ip = ts.peer_ip;
    connected_at_ms = ts.connected_at_ms;
    add_key_at_ms = ts.add_key_at_ms;
    uptime_sec = ts.uptime_sec;
    handshake_ago_s = ts.handshake_ago_s;
    rx_bytes = ts.rx_bytes;
    tx_bytes = ts.tx_bytes;
    rx_rate = ts.rx_rate;
    tx_rate = ts.tx_rate;
    probe_at_ms = ts.probe_at_ms;
    probe_ok = ts.probe_ok;
    probe_status = ts.probe_status;
    probe_latency_ms = ts.probe_latency_ms;
    ping_latency_ms = ts.ping_latency_ms;
    probe_count = ts.probe_count;
    probe_fails = ts.probe_fails;
    connect_tries = ts.connect_tries;
    connect_fails = ts.connect_fails;
    auth_token = ts.auth_token;
    auth_token_acquired_at_ms = ts.auth_token_acquired_at_ms;
  }

  -- The nil slice of connections and the empty one are both the empty list.
  abbrev pub show_listener : ListenerStatus → Status F → Status F
  show_listener ls s =
      let shown = record s { conns = ls.conns } in
      if ls.bound && not (str_eq ls.addr []) then record shown { listen = ls.addr } else shown

  -- `Snapshot`, which looks at the proxy three times: at its own fields, at the tunnel, and at the
  -- listener.
  unfoldable pub snapshot : Floats F → IpText → ℕ → Option PiaClient → Moments F → Status F
  snapshot floats net now pia m =
      let empty = empty_status floats m.fields.cfg in
      if m.fields.attached
      then show_listener (Listener.snapshot m.listener.listener)
          (show_tunnel (TunnelView.snapshot net now pia m.tunnel.tunnel.tunnel) empty)
      else empty
