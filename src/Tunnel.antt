-- ===== src/Tunnel.antt =====
-- tunnel.go: one WireGuard tunnel. The fields of `Tunnel`, and the blocks of code that the mutex
-- encloses, each a function of the state.
pub mod Backoff
pub mod Connect
pub mod Monitor
pub mod Lifecycle
pub mod Status
pub mod Attempt
use piaproxy.Base.{
  ℕ, ◌+◌, ◌%◌, ◌^◌, Bool, true, false, Option, none, some, if◌then◌else◌, [], Bytes, ◌∷◌,
}
use piaproxy.Base.Int.{ℤ, pos}
use piaproxy.Base.Result.{Result, ok, err}
use piaproxy.Base.Time.{Time}
use piaproxy.Net.{NetError, tunnel_down}
use piaproxy.Pia.Http.{PiaError}
use piaproxy.Pia.Regions.{ServerEndpoint}
use piaproxy.Pia.Client.{WgSession}

-- `State` of proxy.go.
pub data State : Type 0 where
  idle connecting up degraded error : State

-- `CityConfig` of proxy.go; an empty CN and IP stand for no preferred server.
pub record CityConfig : Type 0 where
  pub city : Bytes
  pub region : Bytes
  pub listen : Bytes
  pub preferred_server : ServerEndpoint

-- The errors of runOnce. Only the first two wrap an error of the PIA client.
pub data TunnelError : Type 0 where
  region_lookup add_key : PiaError → TunnelError
  invalid_peer_ip create_tun build_ipc ipc_set wg_up : TunnelError
  context_done : TunnelError

-- The texts that `lastError` takes.
pub data LastError : Type 0 where
  no_error stale_handshake : LastError
  failed : TunnelError → LastError
  probe_failed : Bytes → LastError

-- The device and the netstack of a session are named by numbers.
pub record Tunnel (F : Type 0) : Type 0 where
  pub cfg : CityConfig
  pub state : State
  pub last_error : LastError
  pub session : Option WgSession
  pub connected_at : Time
  pub add_key_at : Time
  pub last_handshake : Time
  pub rx_total : ℕ
  pub tx_total : ℕ
  pub rx_rate : F
  pub tx_rate : F
  pub prev_rx : ℕ
  pub prev_tx : ℕ
  pub prev_stats_at : Time
  pub probe_at : Time
  pub probe_ok : Bool
  pub probe_status : Bytes
  pub probe_latency_ms : ℕ
  pub ping_latency_ms : ℤ
  pub probe_count : ℕ
  pub probe_fail_count : ℕ
  pub connect_attempt : ℕ
  pub connect_fails : ℕ
  pub device : Option ℕ
  pub net_net : Option ℕ

-- float64, as far as the rates use it.
pub record Floats (F : Type 0) : Type 0 where
  pub zero_rate : F
  pub one : F
  -- The literal 0.4.
  pub alpha : F
  pub of_uint64 : ℕ → F
  -- Duration.Seconds.
  pub seconds : ℕ → F
  pub plus : F → F → F
  pub minus : F → F → F
  pub times : F → F → F
  pub over : F → F → F

-- atomic.AddUint64 by one.
abbrev pub incr : ℕ → ℕ
incr n = (n + 1) % 2 ^ 64

abbrev pub is_serving : State → Bool
is_serving up = true
is_serving degraded = true
is_serving _ = false

module _ {F : Type 0} (floats : Floats F) where
  unfoldable pub new_tunnel : CityConfig → Tunnel F
  new_tunnel cfg = record {
    cfg = cfg;
    state = idle;
    last_error = no_error;
    session = none;
    connected_at = none;
    add_key_at = none;
    last_handshake = none;
    rx_total = 0;
    tx_total = 0;
    rx_rate = floats.zero_rate;
    tx_rate = floats.zero_rate;
    prev_rx = 0;
    prev_tx = 0;
    prev_stats_at = none;
    probe_at = none;
    probe_ok = false;
    probe_status = [];
    probe_latency_ms = 0;
    ping_latency_ms = pos 0;
    probe_count = 0;
    probe_fail_count = 0;
    connect_attempt = 0;
    connect_fails = 0;
    device = none;
    net_net = none;
  }

  -- Step 5 of runOnce, with the times that it reads.
  unfoldable pub publish : WgSession → ℕ → ℕ → ℕ → Tunnel F → Tunnel F
  publish session device stack now t = record t {
    state = up;
    last_error = no_error;
    session = some session;
    connected_at = some now;
    device = some device;
    net_net = some stack;
    prev_rx = 0;
    prev_tx = 0;
    rx_total = 0;
    tx_total = 0;
    rx_rate = floats.zero_rate;
    tx_rate = floats.zero_rate;
    prev_stats_at = some now;
    last_handshake = none;
    probe_ok = false;
    probe_status = [];
  }

module _ {F : Type 0} where
  -- `Netstack`.
  unfoldable pub netstack : Tunnel F → Option ℕ
  netstack t = t.net_net

  -- `Dial`: `connect` is DialContext of a netstack.
  unfoldable pub dial :
      {A : Type 0}
      → (ℕ → Bytes → Bytes → Result NetError A)
      → Bytes
      → Bytes
      → Tunnel F
      → Result NetError A
  dial connect network addr t = elim t.net_net [
    | none ↦ err tunnel_down
    | some n ↦ connect n network addr
  ]

  unfoldable pub set_state : State → LastError → Tunnel F → Tunnel F
  set_state s msg t = record t { state = s; last_error = msg }

  -- `setError`; `none` is a nil error.
  unfoldable pub set_error : Option TunnelError → Tunnel F → Tunnel F
  set_error none t = t
  set_error (some e) t = record t { state = error; last_error = failed e }

  -- The first two lines of runOnce.
  unfoldable pub begin_attempt : Tunnel F → Tunnel F
  begin_attempt t =
      set_state connecting no_error (record t { connect_attempt = incr t.connect_attempt })

  -- The deferred cleanup of runOnce; the flag says whether the context is done.
  unfoldable pub cleanup : Bool → Tunnel F → Tunnel F
  cleanup ctx_done t =
      let closed = record t { net_net = none; device = none; session = none } in
      if ctx_done
      then (if is_serving t.state then record closed { state = idle } else closed)
      else record closed { state = error }
