-- ===== src/Examples/Shutdown.antt =====
-- A daemon of one city that is stopped at once, and the theorem about its end.
use piaproxy.Base.{ℕ, ◌≡◌, refl, true, [], ◌∷◌, All, List}
use piaproxy.Tunnel.{CityConfig, new_tunnel}
use piaproxy.Tunnel.Lifecycle
use piaproxy.Tunnel.Lifecycle.{stop}
use piaproxy.Proxy.{
  Proxy, launch, ticking, aborting, aborted, tunnel_moves, saw_idle, give_up, return_early,
}
use piaproxy.Daemon.Startup.{launch_all, no_opts}
use piaproxy.Daemon.Shutdown.{
  Daemon, running, finished, listening, shut, end_context, launch_daemon, proxy_moves, signal,
  shut_down, wait, finish, Reach, here, next,
}
use piaproxy.Daemon.Shutdown.Returned.{IsDown}
use piaproxy.Daemon.Shutdown.Joined.{Runs, main_joins}
use piaproxy.Examples.Session.{city}
use piaproxy.Examples.Tunnel.{floats}

abbrev cities : List CityConfig
cities = city ∷ []

abbrev cancelled : Proxy ℕ
cancelled = end_context (launch floats city no_opts)

abbrev stopped : Proxy ℕ
stopped = record cancelled { tunnel = record cancelled.tunnel { phase = Lifecycle.finished } }

abbrev signaled : Daemon ℕ
signaled = record {
  proxies = cancelled ∷ [];
  signaled = true;
  stage = running;
  control = listening;
}

abbrev with_proxy : Proxy ℕ → Daemon ℕ
with_proxy p = record signaled { proxies = p ∷ [] }

abbrev gone : Proxy ℕ
gone = record stopped { stage = aborted }

abbrev over : Daemon ℕ
over = record (with_proxy gone) { stage = finished; control = shut }

ends : Reach floats (launch_daemon floats cities) over
unfolding launch_daemon launch_all launch Lifecycle.start new_tunnel
ends =
    let r1 : Reach floats (launch_daemon floats cities) signaled = next here (signal refl refl) in
    let r2 : Reach floats (launch_daemon floats cities) (with_proxy stopped) = next r1 (
      proxy_moves [] [] cancelled stopped refl refl
        (tunnel_moves stopped.tunnel (stop refl refl refl) refl) refl refl) in
    let seen : Proxy ℕ = record stopped { stage = ticking } in
    let r3 : Reach floats (launch_daemon floats cities) (with_proxy seen) =
      next r2 (proxy_moves [] [] stopped seen refl refl (saw_idle refl refl refl) refl refl) in
    let given : Proxy ℕ = record stopped { stage = aborting } in
    let r4 : Reach floats (launch_daemon floats cities) (with_proxy given) =
      next r3 (proxy_moves [] [] seen given refl refl (give_up refl refl refl) refl refl) in
    let r5 : Reach floats (launch_daemon floats cities) (with_proxy gone) =
      next r4 (proxy_moves [] [] given gone refl refl (return_early refl refl refl) refl refl) in
    next (next (next r5 (shut_down refl refl refl)) (wait refl refl)) (finish refl (refl, tt) refl)

main_joins_example :
    Runs floats cities over.proxies
    × (over.signaled ≡ true)
    × (over.control ≡ shut)
    × All IsDown over.proxies
main_joins_example = main_joins floats cities over ends refl
