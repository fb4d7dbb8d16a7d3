-- ===== src/Proxy.antt =====
-- proxy.go: a proxy is one tunnel and one listener. `Run` starts the tunnel, waits until it has left
-- the state idle, starts the listener, and stops both when its context is done.
pub mod Stages
pub mod Safety
pub mod Draining
pub mod Stopping
pub mod Status
pub mod Route
use piaproxy.Base.{
  Bool, true, false, not, Option, none, some, ℕ, ◌==◌, ◌≡◌, Bytes, contains, if◌then◌else◌, ltb,
  ◌&&◌,
}
use piaproxy.Base.Result.{Result}
use piaproxy.Net.{NetError}
use piaproxy.Tunnel
use piaproxy.Tunnel.{Floats, CityConfig, State, idle}
use piaproxy.Tunnel.Lifecycle
use piaproxy.Tunnel.Lifecycle.{Sys, finished}
use piaproxy.Socks.Listener
use piaproxy.Socks.Listener.{
  SocksOpts, Host, HostEvent, start_called, stop_called, parent_canceled, watcher_runs, loop_ends,
  accept_breaks, serves, new_socks_listener, on_event, stop,
}

-- Where the thread of Run is: in waitForTunnelStart, at its read of the state and at its select; on
-- its way to Start; at its wait for the context; in Stop, at its wait for the accept loop of the
-- socket that it had; at its wait for the tunnel; returned; and the same two places where
-- waitForTunnelStart has returned false.
pub data Stage : Type 0 where
  polling ticking leaving serving joining ended aborting aborted : Stage
  draining : Option ℕ → Stage

-- The proxy with the tunnel and the listener that Run makes. `attached` says that p.tunnel and
-- p.listener point to these; otherwise both are nil. Tunnel and proxy have one context.
pub record Proxy (F : Type 0) : Type 0 where
  pub cfg : CityConfig
  -- DNSResolverIP, Username and Password, which Run hands to the listener.
  pub opts : SocksOpts
  pub tunnel : Sys F
  pub listener : Host
  pub attached : Bool
  pub stage : Stage

abbrev pub is_idle : State → Bool
is_idle idle = true
is_idle _ = false

-- The context that Start derived from the context of Run is done if this one is.
abbrev pub may_happen : Bool → ℕ → HostEvent → Bool
may_happen ctx_done bound (start_called _) = false
may_happen ctx_done bound stop_called = false
may_happen ctx_done bound (parent_canceled id) = ctx_done && ltb id bound
may_happen ctx_done bound (watcher_runs _) = true
may_happen ctx_done bound (loop_ends _) = true
may_happen ctx_done bound (accept_breaks _) = true
may_happen ctx_done bound (serves _ _) = true

-- `done` of the socket is closed, or there is none.
abbrev pub loop_over : Option ℕ → Host → Bool
loop_over none h = true
loop_over (some id) h = not (contains id h.serving)

module _ {F : Type 0} where
  -- `Netstack`, which looks at the fields of the proxy and then at the tunnel.
  unfoldable pub netstack : Proxy F → Proxy F → Option ℕ
  unfolding Tunnel.netstack
  netstack p q = if p.attached then Tunnel.netstack q.tunnel.tunnel else none

module _ {F : Type 0} (floats : Floats F) where
  -- `NewProxy`, and Run up to the launch of the tunnel.
  unfoldable pub launch : CityConfig → SocksOpts → Proxy F
  launch cfg opts = record {
    cfg = cfg;
    opts = opts;
    tunnel = Lifecycle.start floats cfg;
    listener = new_socks_listener cfg.listen;
    attached = true;
    stage = polling;
  }

  pub data Step (p : Proxy F) (q : Proxy F) : Type 0 where
    -- The goroutine of the tunnel with its loops, or the cancelling of the context.
    tunnel_moves :
        (t : Sys F) → Lifecycle.Step floats p.tunnel t → q ≡ record p { tunnel = t } → Step p q
    -- A goroutine of the listener.
    listener_moves :
        (e : HostEvent)
        → may_happen p.tunnel.ctx_done p.listener.next_id e ≡ true
        → q ≡ record p { listener = on_event e p.listener }
        → Step p q
    saw_start :
        p.stage ≡ polling
        → is_idle p.tunnel.tunnel.state ≡ false
        → q ≡ record p { stage = leaving }
        → Step p q
    saw_idle :
        p.stage ≡ polling
        → is_idle p.tunnel.tunnel.state ≡ true
        → q ≡ record p { stage = ticking }
        → Step p q
    tick : p.stage ≡ ticking → q ≡ record p { stage = polling } → Step p q
    give_up :
        p.stage ≡ ticking → p.tunnel.ctx_done ≡ true → q ≡ record p { stage = aborting } → Step p q
    return_early :
        p.stage ≡ aborting → p.tunnel.phase ≡ finished → q ≡ record p { stage = aborted } → Step p q
    -- An error of Start is only logged.
    bind :
        (bound : Result NetError Bytes)
        → p.stage ≡ leaving
        → q ≡ record p { stage = serving; listener = (Listener.start bound p.listener).1 }
        → Step p q
    halt :
        p.stage ≡ serving
        → p.tunnel.ctx_done ≡ true
        → q ≡ record p { stage = draining p.listener.self.cancel; listener = stop p.listener }
        → Step p q
    drained :
        (id : Option ℕ)
        → p.stage ≡ draining id
        → loop_over id p.listener ≡ true
        → q ≡ record p { stage = joining }
        → Step p q
    joined :
        p.stage ≡ joining
        → p.tunnel.phase ≡ finished
        → q ≡ record p { stage = ended; attached = false }
        → Step p q

  pub data Reach (p : Proxy F) : Proxy F → Type 0 where
    here : Reach p p
    next : {q r : Proxy F} → Reach p q → Step q r → Reach p r
