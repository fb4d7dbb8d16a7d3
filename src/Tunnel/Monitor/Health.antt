-- ===== src/Tunnel/Monitor/Health.antt =====
-- What the two loops leave alone in a tunnel that serves.
use piaproxy.Base.{ℕ, ◌≡◌, refl, Option, none, some, arith, Bytes}
use piaproxy.Base.Int.{ℤ}
use piaproxy.Tunnel.{Tunnel, Floats, is_serving}
use piaproxy.Tunnel.Monitor.{
  StatsText, Probe, read_counters, store_counters, judge_handshake, stats_round, judge_probe,
  count_probe, health_round,
}

-- What neither loop touches.
pub record SameSession {F : Type 0} (t u : Tunnel F) : Type 0 where
  pub serving : is_serving u.state ≡ is_serving t.state
  pub session : u.session ≡ t.session
  pub device : u.device ≡ t.device
  pub net_net : u.net_net ≡ t.net_net
  pub attempts : u.connect_attempt ≡ t.connect_attempt

module _ {F : Type 0} (floats : Floats F) where
  judge_handshake-SameSession :
      (hs : ℤ) (later : ℕ) (t : Tunnel F) → SameSession t (judge_handshake floats hs later t)
  unfolding judge_handshake
  judge_handshake-SameSession hs later t = ground arith

  pub stats_round-SameSession :
      (text : StatsText) (raw : Option Bytes) (now later : ℕ) (t : Tunnel F)
      → SameSession t (stats_round floats text raw now later t)
  unfolding stats_round store_counters
  stats_round-SameSession text none now later t = record {
    serving = refl;
    session = refl;
    device = refl;
    net_net = refl;
    attempts = refl;
  }
  stats_round-SameSession text (some raw) now later t =
      let c = read_counters text raw in
      let k = judge_handshake-SameSession c.hs_sec later (store_counters floats c now t) in
      record {
        serving = k.serving;
        session = k.session;
        device = k.device;
        net_net = k.net_net;
        attempts = k.attempts;
      }

  pub health_round-SameSession :
      (p : Probe) (now later : ℕ) (t : Tunnel F) → SameSession t (health_round p now later t)
  unfolding health_round judge_probe count_probe
  health_round-SameSession p now later t = ground arith
