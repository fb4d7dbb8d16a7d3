-- ===== src/Tunnel/Status.antt =====
-- `TunnelStatus` and `Snapshot` of tunnel.go.
pub mod Shown
use piaproxy.Base.{ℕ, ◌/◌, Bool, true, false, Option, none, some, [], if◌then◌else◌, Bytes}
use piaproxy.Base.Int.{ℤ, pos, negsuc}
use piaproxy.Base.Time.{Time, second, since}
use piaproxy.Net.{IpText}
use piaproxy.Pia.Client.{WgSession, PiaClient}
use piaproxy.Tunnel.{State, LastError, Tunnel, is_serving}

pub record TunnelStatus (F : Type 0) : Type 0 where
  pub city : Bytes
  pub region : Bytes
  pub state : State
  pub last_error : LastError
  pub server_cn : Bytes
  pub server_ip : Bytes
  pub server_port : ℤ
  pub peer_ip : Bytes
  pub connected_at_ms : ℕ
  pub add_key_at_ms : ℕ
  pub uptime_sec : ℕ
  pub handshake_ago_s : ℤ
  pub rx_bytes : ℕ
  pub tx_bytes : ℕ
  pub rx_rate : F
  pub tx_rate : F
  pub probe_at_ms : ℕ
  pub probe_ok : Bool
  pub probe_status : Bytes
  pub probe_latency_ms : ℕ
  pub ping_latency_ms : ℤ
  pub probe_count : ℕ
  pub probe_fails : ℕ
  pub connect_tries : ℕ
  pub connect_fails : ℕ
  pub auth_token : Bytes
  pub auth_token_acquired_at_ms : ℕ

-- UnixMilli of a time that is set, and otherwise the field's zero value.
abbrev pub milliseconds : Time → ℕ
milliseconds none = 0
milliseconds (some t) = t / 1_000_000

abbrev seconds_since : ℕ → Time → ℕ
seconds_since now none = 0
seconds_since now (some t) = since now (some t) / second

abbrev handshake_ago : ℕ → Time → ℤ
handshake_ago now none = negsuc 0
handshake_ago now (some t) = pos (since now (some t) / second)

module _ {F : Type 0} (net : IpText) where
  -- The fields that come from the session, if there is one; a session's peer address is not nil.
  abbrev show_session : Option WgSession → TunnelStatus F → TunnelStatus F
  show_session none s = s
  show_session (some session) s = record s {
    server_cn = session.server.cn;
    server_ip = session.server.ip;
    server_port = session.server.port;
    peer_ip = net.ip_string session.peer_ip;
  }

  abbrev show_token : Option PiaClient → TunnelStatus F → TunnelStatus F
  show_token none s = s
  show_token (some client) s = record s {
    auth_token = client.token;
    auth_token_acquired_at_ms = milliseconds client.token_acquired_at;
  }

  -- `Snapshot`, at a time and with the PIA client, if the tunnel has one.
  unfoldable pub snapshot : ℕ → Option PiaClient → Tunnel F → TunnelStatus F
  snapshot now pia t = show_token pia (
      show_session t.session (record {
        city = t.cfg.city;
        region = t.cfg.region;
        state = t.state;
        last_error = t.last_error;
        server_cn = [];
        server_ip = [];
        server_port = pos 0;
        peer_ip = [];
        connected_at_ms = if is_serving t.state then milliseconds t.connected_at else 0;
        add_key_at_ms = milliseconds t.add_key_at;
        uptime_sec = if is_serving t.state then seconds_since now t.connected_at else 0;
        handshake_ago_s = handshake_ago now t.last_handshake;
        rx_bytes = t.rx_total;
        tx_bytes = t.tx_total;
        rx_rate = t.rx_rate;
        tx_rate = t.tx_rate;
        probe_at_ms = milliseconds t.probe_at;
        probe_ok = t.probe_ok;
        probe_status = t.probe_status;
        probe_latency_ms = t.probe_latency_ms;
        ping_latency_ms = t.ping_latency_ms;
        probe_count = t.probe_count;
        probe_fails = t.probe_fail_count;
        connect_tries = t.connect_attempt;
        connect_fails = t.connect_fails;
        auth_token = [];
        auth_token_acquired_at_ms = 0;
      }))
