-- ===== src/Tunnel/Monitor.antt =====
-- The two loops beside a session: one round of statsLoop and one of healthLoop.
pub mod Health
pub mod Watch
use piaproxy.Base.{
  ℕ, ◌+◌, ◌-◌, ◌*◌, ◌%◌, ◌^◌, ◌≤◌, ◌<◌, ◌==◌, ◌&&◌, ◌||◌, not, Bool, true, false, Option, none,
  some, List, [], ◌∷◌, if◌then◌else◌, ltb, leb, Bytes, codes, str_eq,
}
use piaproxy.Base.Int.{ℤ, pos, negsuc, pos_part, ltb_ℤ}
use piaproxy.Base.Result.{Result, ok, err}
use piaproxy.Base.Time.{Time, second, minute, since}
use piaproxy.Net.{NetError}
use piaproxy.Tunnel.{
  Tunnel, Floats, State, up, degraded, LastError, no_error, stale_handshake, probe_failed, incr,
}

-- strings.TrimSpace, and the values that ParseUint and ParseInt return beside the error that is
-- dropped.
pub record StatsText : Type 0 where
  pub trim_space : Bytes → Bytes
  pub parse_uint : Bytes → ℕ
  pub parse_int : Bytes → ℤ

pub record Counters : Type 0 where
  pub rx : ℕ
  pub tx : ℕ
  pub hs_sec : ℤ

-- `strings.Split(raw, "\\n")`.
unfoldable pub split_lines : Bytes → List Bytes
split_lines [] = [] ∷ []
split_lines (c ∷ cs) =
    let rest = split_lines cs in
    if c == b'\n' then [] ∷ rest else elim rest [ [] ↦ (c ∷ []) ∷ [] | l ∷ ls ↦ (c ∷ l) ∷ ls ]

-- `strings.Cut(line, "=")`; `none` where there is no separator.
unfoldable pub cut : ℕ → Bytes → Option (Bytes × Bytes)
cut sep [] = none
cut sep (c ∷ cs) =
    if c == sep
    then some ([], cs)
    else elim (cut sep cs) [ none ↦ none | some (k, v) ↦ some (c ∷ k, v) ]

abbrev pub is_up : State → Bool
is_up up = true
is_up _ = false

abbrev pub is_degraded : State → Bool
is_degraded degraded = true
is_degraded _ = false

abbrev pub handshake_limit : ℕ
handshake_limit = 3 * minute

-- Subtraction of two uint64.
abbrev pub sub_u64 : ℕ → ℕ → ℕ
sub_u64 a b = (a + 2 ^ 64 - b) % 2 ^ 64

module _ (text : StatsText) where
  -- The switch over the key of one line.
  unfoldable pub read_stat : Bytes → Counters → Counters
  read_stat line c = elim (cut b'=' (text.trim_space line)) [
    | none ↦ c
    | some (k, v) ↦
        if str_eq k (codes "rx_bytes")
        then record c { rx = text.parse_uint v }
        else if str_eq k (codes "tx_bytes")
        then record c { tx = text.parse_uint v }
        else if str_eq k (codes "last_handshake_time_sec")
        then record c { hs_sec = text.parse_int v }
        else c
  ]

  unfoldable pub read_lines : List Bytes → Counters → Counters
  read_lines [] c = c
  read_lines (l ∷ ls) c = read_lines ls (read_stat l c)

  unfoldable pub read_counters : Bytes → Counters
  read_counters raw = read_lines (split_lines raw) (record { rx = 0; tx = 0; hs_sec = pos 0 })

module _ {F : Type 0} (floats : Floats F) where
  open floats use {one, alpha, of_uint64, seconds, plus, minus, times, over}

  -- `alpha*inst + (1-alpha)*rate`, where inst is the growth over `dt`.
  abbrev smooth : ℕ → ℕ → ℕ → F → F
  smooth now prev dt rate =
      plus (times alpha (over (of_uint64 (sub_u64 now prev)) (seconds dt)))
        (times (minus one alpha) rate)

  -- The part of a round that stores the counters.
  unfoldable pub store_counters : Counters → ℕ → Tunnel F → Tunnel F
  store_counters c now t =
      let dt = since now t.prev_stats_at in
      let grown = ltb 0 dt && (not (t.prev_rx == 0) || not (t.prev_tx == 0)) in
      record t {
        rx_rate = if grown then smooth c.rx t.prev_rx dt t.rx_rate else t.rx_rate;
        tx_rate = if grown then smooth c.tx t.prev_tx dt t.tx_rate else t.tx_rate;
        prev_rx = c.rx;
        prev_tx = c.tx;
        prev_stats_at = some now;
        rx_total = c.rx;
        tx_total = c.tx;
        last_handshake =
            if ltb_ℤ (pos 0) c.hs_sec then some (pos_part c.hs_sec * second) else t.last_handshake;
      }

  -- The part that moves between up and degraded; `later` is when time.Since reads the clock.
  unfoldable pub judge_handshake : ℤ → ℕ → Tunnel F → Tunnel F
  judge_handshake hs_sec later t =
      let age = since later t.last_handshake in
      if is_up t.state && ltb_ℤ (pos 0) hs_sec && ltb handshake_limit age
      then record t { state = degraded; last_error = stale_handshake }
      else if is_degraded t.state && ltb_ℤ (pos 0) hs_sec && leb age handshake_limit
      then record t { state = up; last_error = no_error }
      else t

  -- A round of statsLoop: what IpcGet returned, and the times that are read.
  unfoldable pub stats_round : StatsText → Option Bytes → ℕ → ℕ → Tunnel F → Tunnel F
  stats_round text none now later t = t
  stats_round text (some raw) now later t =
      let c = read_counters text raw in judge_handshake c.hs_sec later (store_counters c now t)

-- What a probe of healthLoop found.
pub record Probe : Type 0 where
  pub healthy : Bool
  pub status : Bytes
  pub probe_latency : ℕ
  pub ping_latency : ℤ

-- `doProbe`: the text of an error, or the status of the response.
unfoldable pub do_probe : Result Bytes (ℕ × Bytes) → Bool × Bytes
do_probe (err text) = (false, text)
do_probe (ok (status_code, status)) = (leb 200 status_code && ltb status_code 400, status)

-- `tcpPing`: the milliseconds until the dial succeeded.
unfoldable pub tcp_ping : Result NetError ℕ → ℤ
tcp_ping (err e) = negsuc 0
tcp_ping (ok ms) = pos ms

-- The URL of the probe with number `idx`.
unfoldable pub probe_url : ℕ → Bytes
probe_url idx =
    if idx % 2 == 0
    then codes "http://www.gstatic.com/generate_204"
    else codes "http://www.msftconnecttest.com/connecttest.txt"

-- A message that is there stays.
abbrev keep_error : LastError → Bytes → LastError
keep_error no_error status = probe_failed status
keep_error e status = e

module _ {F : Type 0} where
  unfoldable pub count_probe : Bool → Tunnel F → Tunnel F
  count_probe healthy t = record t {
    probe_count = incr t.probe_count;
    probe_fail_count = if healthy then t.probe_fail_count else incr t.probe_fail_count;
  }

  -- The end of a round, under the mutex.
  unfoldable pub judge_probe : Probe → ℕ → Tunnel F → Tunnel F
  judge_probe p later t =
      if is_up t.state && not p.healthy
      then record t { state = degraded; last_error = keep_error t.last_error p.status }
      else if is_degraded t.state && p.healthy && leb (since later t.last_handshake) handshake_limit
      then record t { state = up; last_error = no_error }
      else t

  -- A round of healthLoop: the probe, and the times that are read.
  unfoldable pub health_round : Probe → ℕ → ℕ → Tunnel F → Tunnel F
  health_round p now later t = judge_probe p later (record (count_probe p.healthy t) {
    probe_at = some now;
    probe_ok = p.healthy;
    probe_status = p.status;
    probe_latency_ms = p.probe_latency;
    ping_latency_ms = p.ping_latency;
  })

-- A round of either loop: what IpcGet returned or what the probe found, and the times that are read.
pub data Round : Type 0 where
  stats : Option Bytes → ℕ → ℕ → Round
  health : Probe → ℕ → ℕ → Round

-- The two loops beside a session, whose rounds come in any order.
unfoldable pub rounds : {F : Type 0} → Floats F → StatsText → List Round → Tunnel F → Tunnel F
rounds floats text [] t = t
rounds floats text (stats raw now later ∷ rs) t =
    rounds floats text rs (stats_round floats text raw now later t)
rounds floats text (health p now later ∷ rs) t = rounds floats text rs (health_round p now later t)
