-- ===== src/Examples/Daemon.antt =====
-- The cities of a daemon and a listener, and the theorems about them.
use piaproxy.Base.{◌≡◌, refl, none, List, [], ◌∷◌, arith, All, Bytes, codes, str_eq}
use piaproxy.Base.Int.{pos}
use piaproxy.Base.Result.{ok, err}
use piaproxy.Net.{closed}
use piaproxy.Tunnel.{CityConfig}
use piaproxy.Tunnel.Monitor.{cut}
use piaproxy.Daemon.{NameText, read_entry, read_entries, split_on, build_city_list}
use piaproxy.Daemon.Cities.{Distinct, build_city_list-Distinct}
use piaproxy.Socks.Listener.{
  HostEvent, start_called, stop_called, watcher_runs, loop_ends, on_events, new_socks_listener,
  Lookup,
}
use piaproxy.Socks.Listener.Sockets.{Inv, on_events-Inv}
use piaproxy.Examples.{sample_net}

abbrev pub names : NameText
names = record { trim_space = λ s. s; to_lower = λ s. s }

abbrev setting : Bytes
setting = codes "A=a,B=b"

setting_reads :
    read_entries names (split_on b',' setting)
    ≡ record { name = codes "A"; region = codes "a"; port = none }
      ∷ record { name = codes "B"; region = codes "b"; port = none }
      ∷ []
unfolding read_entries split_on read_entry str_eq cut
setting_reads = refl

no_ports : All (λ e. e.port ≡ none) (read_entries names (split_on b',' setting))
no_ports = rw setting_reads (refl, (refl, tt))

build_city_list-Distinct_example :
    Distinct (build_city_list names (codes "0.0.0.0") (pos 1080) setting)
build_city_list-Distinct_example =
    build_city_list-Distinct names (codes "0.0.0.0") 1080 setting no_ports
      (rw setting_reads (omega arith)) (omega arith)

abbrev cities : List CityConfig
cities = build_city_list names (codes "0.0.0.0") (pos 1080) setting

abbrev calls : List HostEvent
calls =
    start_called (err closed)
    ∷ start_called (ok (codes "a:1"))
    ∷ start_called (ok (codes "a:2"))
    ∷ stop_called
    ∷ start_called (ok (codes "a:3"))
    ∷ watcher_runs 0
    ∷ loop_ends 0
    ∷ []

on_events-Inv_example : Inv (on_events calls (new_socks_listener (codes "a:0")))
on_events-Inv_example = on_events-Inv calls (codes "a:0")

abbrev pub resolver : Lookup
resolver = record {
  net = sample_net;
  split_host_port = λ address. ok (codes "host", codes "80");
  lookup_ip = λ host. ok ((1 ∷ 2 ∷ 3 ∷ 4 ∷ []) ∷ []);
}
