-- ===== src/Daemon/Shutdown.antt =====
-- main of cmd/piaproxyd/main.go from the launch of the proxies to its end: the proxies run side by side
-- under one context, which a signal ends, beside the control server, whose failure ends the process.
pub mod Returned
pub mod Joined
use piaproxy.Base.{ℕ, Bool, true, false, List, [], ◌∷◌, ◌++◌, map, ◌≡◌, ◌⊎◌, All, refl}
use piaproxy.Tunnel.{Floats, CityConfig}
use piaproxy.Proxy
use piaproxy.Proxy.{Proxy, Stage, ended, aborted}
use piaproxy.Daemon.Startup.{launch_all}

-- Where main is: at its wait for the signal, in Shutdown of the HTTP server, at wg.Wait, past it, and
-- after log.Fatalf.
pub data MainStage : Type 0 where
  running shutting_down waiting finished died : MainStage

-- ListenAndServe of the control server serves, or returns ErrServerClosed after Shutdown.
pub data Control : Type 0 where
  listening shut : Control

pub record Daemon (F : Type 0) : Type 0 where
  pub proxies : List (Proxy F)
  pub signaled : Bool
  pub stage : MainStage
  pub control : Control

-- Whether the process runs.
abbrev pub is_alive : MainStage → Bool
is_alive finished = false
is_alive died = false
is_alive _ = true

-- `defer wg.Done()` of a proxy's goroutine has run.
abbrev pub has_returned : Stage → Bool
has_returned ended = true
has_returned aborted = true
has_returned _ = false

-- The context that all proxies share is done.
abbrev pub end_context : {F : Type 0} → Proxy F → Proxy F
end_context p = record p { tunnel = record p.tunnel { ctx_done = true } }

module _ {F : Type 0} (floats : Floats F) where
  unfoldable pub launch_daemon : List CityConfig → Daemon F
  launch_daemon cities = record {
    proxies = launch_all floats cities;
    signaled = false;
    stage = running;
    control = listening;
  }

  pub data Step (d u : Daemon F) : Type 0 where
    -- A step of a proxy, which does not end the context by itself.
    proxy_moves :
        (before after : List (Proxy F)) (p q : Proxy F)
        → is_alive d.stage ≡ true
        → d.proxies ≡ before ++ p ∷ after
        → Proxy.Step floats p q
        → q.tunnel.ctx_done ≡ p.tunnel.ctx_done
        → u ≡ record d { proxies = before ++ q ∷ after }
        → Step d u
    signal :
        is_alive d.stage ≡ true
        → u ≡ record d { signaled = true; proxies = map end_context d.proxies }
        → Step d u
    -- ListenAndServe fails by itself: log.Fatalf ends the process, whatever the proxies do.
    control_fails :
        is_alive d.stage ≡ true → d.control ≡ listening → u ≡ record d { stage = died } → Step d u
    shut_down :
        d.stage ≡ running
        → d.signaled ≡ true
        → u ≡ record d { stage = shutting_down; control = shut }
        → Step d u
    -- Shutdown returns, at its deadline at the latest.
    wait : d.stage ≡ shutting_down → u ≡ record d { stage = waiting } → Step d u
    finish :
        d.stage ≡ waiting
        → All (λ p. has_returned p.stage ≡ true) d.proxies
        → u ≡ record d { stage = finished }
        → Step d u

  pub data Reach (d : Daemon F) : Daemon F → Type 0 where
    here : Reach d d
    next : {u v : Daemon F} → Reach d u → Step u v → Reach d v
