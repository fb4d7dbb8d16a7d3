-- ===== src/Examples/Association.antt =====
-- A UDP association on a network that works, and the theorems about its traffic.
use piaproxy.Base.{◌≡◌, refl, none, List, [], ◌∷◌, ◌++◌, codes}
use piaproxy.Base.Result.{ok, err}
use piaproxy.Net.{timed_out}
use piaproxy.Socks.State.{UdpEvent, from_client, from_target, tcp_done}
use piaproxy.Socks.Associate.{transfer_udp}
use piaproxy.Socks.Associate.Traffic.{Relays, requests}
use piaproxy.Socks.Associate.Relayed.{transfer_udp-Relays}
use piaproxy.Socks.Associate.Delivery.{transfer_udp-sends}
use piaproxy.Examples.{sample_net, site, site_bytes}
use piaproxy.Examples.Socks.{world, fresh}

abbrev traffic : List UdpEvent
traffic =
    from_client (ok (0 ∷ 0 ∷ 0 ∷ (site_bytes ++ codes "q"), codes "me"))
    ∷ from_client (err timed_out)
    ∷ from_target site (ok (codes "a"))
    ∷ from_client (ok (codes "junk", codes "you"))
    ∷ from_target site (ok (codes "b"))
    ∷ tcp_done none
    ∷ []

transfer_udp-Relays_example :
    Relays world traffic none (fresh []) (transfer_udp world traffic (fresh [])).1
transfer_udp-Relays_example = transfer_udp-Relays world traffic (fresh []) refl

transfer_udp-sends_example :
    (transfer_udp world traffic (fresh [])).1.to_targets ≡ requests sample_net traffic
transfer_udp-sends_example =
    transfer_udp-sends world (λ addr. (codes "peer:80", refl)) (λ a bytes. refl) traffic (fresh [])
      refl (tt, ((λ e. cc), (tt, (tt, (tt, (tt, tt))))))
