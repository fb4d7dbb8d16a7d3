-- ===== src/Tunnel/Monitor/Watch.antt =====
-- The two loops together, against a watch that knows of handshakes and probes alone.
use piaproxy.Base.{
  ℕ, ◌+◌, ◌*◌, ◌%◌, ◌^◌, ◌≡◌, refl, ◌∙◌, Bool, true, false, ◌||◌, none, some, List, [], ◌∷◌,
  if◌then◌else◌, leb, arith, Bool-cases, inl, inr,
}
use piaproxy.Base.Int.{ℤ, pos, pos_part, ltb_ℤ}
use piaproxy.Base.Time.{Time, second, minute, since}
use piaproxy.Tunnel.{Tunnel, Floats, up, degraded, LastError, no_error}
use piaproxy.Tunnel.Monitor.{
  StatsText, Probe, Counters, read_counters, store_counters, judge_handshake, stats_round,
  judge_probe, count_probe, health_round, Round, stats, health, rounds,
}
use piaproxy.Tunnel.Monitor.Health.{SameSession, stats_round-SameSession, health_round-SameSession}

-- Whether the tunnel is shown as up, the last handshake, and the probes so far.
pub record Watch : Type 0 where
  pub is_well : Bool
  pub handshake : Time
  pub probes : ℕ
  pub failures : ℕ

abbrev pub is_fresh : ℕ → Time → Bool
is_fresh later handshake = leb (since later handshake) (3 * minute)

-- A reading with a handshake decides by its age; any other decides nothing.
abbrev pub on_handshake : ℤ → ℕ → Watch → Watch
on_handshake hs later w =
    if ltb_ℤ (pos 0) hs
    then (let at = some (pos_part hs * second) in
        record w { is_well = is_fresh later at; handshake = at })
    else w

-- A failed probe decides; one that succeeds needs a fresh handshake to change anything.
abbrev pub watch : StatsText → Round → Watch → Watch
watch text (stats none now later) w = w
watch text (stats (some raw) now later) w = on_handshake (read_counters text raw).hs_sec later w
watch text (health p now later) w = record w {
  is_well = if p.healthy then w.is_well || is_fresh later w.handshake else false;
  probes = w.probes + 1;
  failures = if p.healthy then w.failures else w.failures + 1;
}

abbrev pub watch_all : StatsText → List Round → Watch → Watch
watch_all text [] w = w
watch_all text (r ∷ rs) w = watch_all text rs (watch text r w)

abbrev pub is_silent : LastError → Bool
is_silent no_error = true
is_silent _ = false

-- What the tunnel shows is what the watch says; a message is shown exactly while it is not well.
pub record Shows {F : Type 0} (t : Tunnel F) (w : Watch) : Type 0 where
  pub state : t.state ≡ (if w.is_well then up else degraded)
  pub message : is_silent t.last_error ≡ w.is_well
  pub handshake : t.last_handshake ≡ w.handshake
  pub probes : t.probe_count ≡ w.probes % 2 ^ 64
  pub failures : t.probe_fail_count ≡ w.failures % 2 ^ 64

no_error_of : (e : LastError) → is_silent e ≡ true → e ≡ no_error
no_error_of no_error h = refl
no_error_of LastError.stale_handshake h = absurd (ground arith)
no_error_of (LastError.failed _) h = absurd (ground arith)
no_error_of (LastError.probe_failed _) h = absurd (ground arith)

module _ {F : Type 0} (floats : Floats F) (text : StatsText) where
  judge-Shows :
      (c : Counters) (now later : ℕ) (t : Tunnel F) (w : Watch)
      → Shows t w
      → Shows
          (judge_handshake floats c.hs_sec later (store_counters floats c now t))
          (on_handshake c.hs_sec later w)
  unfolding judge_handshake store_counters
  judge-Shows c now later t w s = elim (Bool-cases w.is_well) [
    | inl well ↦ ground arith
    | inr unwell ↦ ground arith
  ]

  health-Shows :
      (p : Probe) (now later : ℕ) (t : Tunnel F) (w : Watch)
      → Shows t w
      → Shows (health_round p now later t) (watch text (health p now later) w)
  unfolding health_round judge_probe count_probe
  health-Shows p now later t w s = elim (Bool-cases w.is_well) [
    | inl well ↦ ground (arith, no_error_of t.last_error)
    | inr unwell ↦ ground arith
  ]

  round-Shows :
      (r : Round) (t : Tunnel F) (w : Watch)
      → Shows t w
      → Shows (rounds floats text (r ∷ []) t) (watch text r w)
  unfolding rounds stats_round
  round-Shows (stats none now later) t w s = s
  round-Shows (stats (some raw) now later) t w s =
      judge-Shows (read_counters text raw) now later t w s
  round-Shows (health p now later) t w s = health-Shows p now later t w s

  round-SameSession : (r : Round) (t : Tunnel F) → SameSession t (rounds floats text (r ∷ []) t)
  unfolding rounds
  round-SameSession (stats raw now later) t = stats_round-SameSession floats text raw now later t
  round-SameSession (health p now later) t = health_round-SameSession floats p now later t

  SameSession-trans : {t u v : Tunnel F} → SameSession t u → SameSession u v → SameSession t v
  SameSession-trans a b = record {
    serving = b.serving ∙ a.serving;
    session = b.session ∙ a.session;
    device = b.device ∙ a.device;
    net_net = b.net_net ∙ a.net_net;
    attempts = b.attempts ∙ a.attempts;
  }

  rounds-cons :
      (r : Round) (rs : List Round) (t : Tunnel F)
      → rounds floats text (r ∷ rs) t ≡ rounds floats text rs (rounds floats text (r ∷ []) t)
  unfolding rounds
  rounds-cons (stats raw now later) rs t = refl
  rounds-cons (health p now later) rs t = refl

  -- The rounds of statsLoop and healthLoop, in any order, move a tunnel that serves as a watch of
  -- handshakes and probes says: a reading with a positive handshake time makes it up if the
  -- handshake is at most three minutes old and degraded otherwise, whatever the probes found; a
  -- failed probe makes it degraded; a probe that succeeds makes it up if the last handshake is at
  -- most three minutes old, and nothing else changes it. An error is shown exactly while it is
  -- degraded, the counters of the probes and of the failed ones are exact modulo 2 ^ 64, and the
  -- session, its device and its netstack stay.
  pub rounds-Watched :
      (rs : List Round) (t : Tunnel F) (w : Watch)
      → Shows t w
      → Shows (rounds floats text rs t) (watch_all text rs w)
        × SameSession t (rounds floats text rs t)
  rounds-Watched [] t w s =
      unfold rounds in
      (s, record { serving = refl; session = refl; device = refl; net_net = refl; attempts = refl })
  rounds-Watched (r ∷ rs) t w s =
      let u = rounds floats text (r ∷ []) t in
      let (shown, same) = rounds-Watched rs u (watch text r w) (round-Shows r t w s) in
      rw (rounds-cons r rs t) (shown, SameSession-trans (round-SameSession r t) same)
