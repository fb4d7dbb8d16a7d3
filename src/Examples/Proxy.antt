-- ===== src/Examples/Proxy.antt =====
-- Runs of a tunnel, a server and a proxy, and the theorems about them.
use piaproxy.Base.{ℕ, refl, true, some, List, [], ◌∷◌, Bytes, codes, length}
use piaproxy.Base.Result.{Result, ok, err}
use piaproxy.Net.{NetError, closed}
use piaproxy.Tunnel.{set_state, begin_attempt, cleanup}
use piaproxy.Tunnel.Connect.{acquire, bring_up}
use piaproxy.Tunnel.Lifecycle.{Sys, start, begin, close, Reach, here, next, attempting, finished}
use piaproxy.Tunnel.Attempt.{AttemptClock, attempt}
use piaproxy.Tunnel.Attempt.Refines.{Attempted, attempt_refines}
use piaproxy.Socks.Server.{
  new_server, new_conn, ServerEvent, accepted, accept_failed, registers, progresses, returns, serve,
}
use piaproxy.Socks.Server.Lives.{Refines, replay, no_lives}
use piaproxy.Socks.Server.Registry.{serve-Refines}
use piaproxy.Socks.Listener
use piaproxy.Socks.Listener.{
  SocksOpts, HostEvent, start_called, serves, new_socks_listener, on_events, active_conn_count,
}
use piaproxy.Proxy
use piaproxy.Proxy.{Proxy, launch, tunnel_moves, saw_start, bind, polling, leaving}
use piaproxy.Proxy.Safety.{IsSafe, Reach-IsSafe}
use piaproxy.Proxy.Status.{Moments}
use piaproxy.Proxy.Route.{Surroundings, serve_client}
use piaproxy.Proxy.Route.Client.{Served, serve_client-Served}
use piaproxy.Examples.Pia.{api, client}
use piaproxy.Examples.Session.{city, key_text, devices}
use piaproxy.Examples.Tunnel.{floats, started, served}
use piaproxy.Examples.Daemon.{resolver}
use piaproxy.Examples.Socks.{pieces, events, whole_session}

abbrev cancelled : Sys ℕ
cancelled = record served { ctx_done = true }

abbrev stopped : Sys ℕ
stopped = record cancelled { phase = finished; tunnel = cleanup true cancelled.tunnel }

abbrev stops : Reach floats cancelled stopped
stops = next here (close refl refl refl)

abbrev clock : AttemptClock
clock = record { added = 5; published = 6 }

attempt_refines_example :
    let u = (attempt floats (api 200) key_text devices clock (client (codes "t")) started).1 in
    Reach floats started u
    × Attempted floats
        (acquire (api 200) started.tunnel.cfg (client (codes "t"))).0
        (λ session. (bring_up key_text devices session).0)
        started
        u
unfolding start
attempt_refines_example =
    attempt_refines floats (api 200) key_text devices clock (client (codes "t")) started refl refl

abbrev visits : List ServerEvent
visits =
    accepted (codes "a") 1 (codes "x")
    ∷ accepted (codes "b") 2 []
    ∷ registers 1
    ∷ registers 0
    ∷ progresses 0 (record (new_conn []) { rx_bytes = 7 })
    ∷ returns 1
    ∷ accept_failed
    ∷ accepted (codes "c") 3 []
    ∷ []

serve-Refines_example : Refines (serve visits new_server) (replay visits no_lives)
serve-Refines_example = serve-Refines visits

abbrev opts : SocksOpts
opts = record {
  username = codes "u";
  password = codes "p";
  dns_resolver_ip = some (9 ∷ 9 ∷ 9 ∷ 9 ∷ []);
}

abbrev launched : Proxy ℕ
launched = launch floats city opts

abbrev tried : Proxy ℕ
tried = record launched {
  tunnel = record launched.tunnel {
    phase = attempting;
    tunnel = begin_attempt launched.tunnel.tunnel;
  };
}

abbrev bound : Result NetError Bytes
bound = ok (codes "l:1")

abbrev open_proxy : Proxy ℕ
open_proxy = record tried {
  stage = Proxy.serving;
  listener = (Listener.start bound tried.listener).1;
}

opens : Proxy.Reach floats (launch floats city opts) open_proxy
unfolding launch start begin_attempt set_state
opens =
    Proxy.next
      (Proxy.next (Proxy.next Proxy.here (tunnel_moves tried.tunnel (begin refl refl refl) refl))
        (saw_start refl refl refl))
      (bind bound refl refl)

Reach-IsSafe_example : IsSafe open_proxy
Reach-IsSafe_example = Reach-IsSafe floats city opts open_proxy opens

abbrev ending : Proxy ℕ
ending = record open_proxy { tunnel = record open_proxy.tunnel { ctx_done = true } }

abbrev moments : Moments ℕ
moments = record { fields = open_proxy; tunnel = open_proxy; listener = ending }

abbrev outside : Surroundings
outside = record {
  lookup = resolver;
  connect = λ stack network address. err closed;
  client_local = codes "peer:80";
  listen_packet = λ addr. err closed;
  write_target = λ target bytes. ok (length bytes);
  write_client = λ addr bytes. ok (length bytes);
}

serve_client-Served_example :
    Served outside opts pieces events open_proxy.tunnel.tunnel whole_session
      (serve_client outside opts open_proxy.tunnel.tunnel pieces events whole_session)
serve_client-Served_example =
    serve_client-Served outside opts pieces events floats city open_proxy opens whole_session
