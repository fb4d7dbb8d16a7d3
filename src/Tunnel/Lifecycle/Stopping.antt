-- ===== src/Tunnel/Lifecycle/Stopping.antt =====
-- What Run does after its context is cancelled.
use piaproxy.Base.{ℕ, ◌+◌, ◌≤◌, ◌≡◌, refl, ◌⊎◌, inl, inr, true, arith}
use piaproxy.Tunnel.{Floats, cleanup, context_done}
use piaproxy.Tunnel.Lifecycle.{
  Phase, is_attempt, starting, attempting, keyed, serving, finished, waiting, Sys, Step, cancel,
  stop, stop_failed, begin, registered, fail, serve, stats, probe, close, wake, stop_waiting, Reach,
  here, next,
}

-- How many moves the thread of Run can still make once its context is done.
abbrev pub moves_left : Phase → ℕ
moves_left finished = 0
moves_left starting = 1
moves_left serving = 1
moves_left attempting = 3
moves_left keyed = 2
moves_left (waiting _) = 2

module _ {F : Type 0} (floats : Floats F) where
  -- A step of the thread of Run counts as a move; those of the loops and of the canceller do not.
  abbrev pub is_move : {s u : Sys F} → Step floats s u → ℕ
  is_move (cancel _) = 0
  is_move (stats _ _ _ _ _ _) = 0
  is_move (probe _ _ _ _ _) = 0
  is_move _ = 1

  abbrev pub moves : {s u : Sys F} → Reach floats s u → ℕ
  moves here = 0
  moves (next r step) = moves r + is_move step

  pub Step-ctx_done : {s u : Sys F} → Step floats s u → s.ctx_done ≡ true → u.ctx_done ≡ true
  Step-ctx_done (cancel e) d = rw e refl
  Step-ctx_done (stop p _ e) d = rw e d
  Step-ctx_done (stop_failed x p _ e) d = rw e d
  Step-ctx_done (begin p _ e) d = rw e d
  Step-ctx_done (registered now p e) d = rw e d
  Step-ctx_done (fail x p _ e) d = rw e d
  Step-ctx_done (serve session device stack now p e) d = rw e d
  Step-ctx_done (stats text raw now later p e) d = rw e d
  Step-ctx_done (probe q now later p e) d = rw e d
  Step-ctx_done (close p _ e) d = rw e d
  Step-ctx_done (wake delay p e) d = rw e d
  Step-ctx_done (stop_waiting delay p _ e) d = rw e d

  attempt-left : (p : Phase) → is_attempt p ≡ true → 1 ≤ moves_left p
  attempt-left attempting e = omega arith
  attempt-left keyed e = omega arith
  attempt-left starting e = omega arith
  attempt-left serving e = omega arith
  attempt-left finished e = absurd (ground arith)
  attempt-left (waiting delay) e = omega arith

  pub Step-moves_left :
      {s u : Sys F} (step : Step floats s u)
      → s.ctx_done ≡ true
      → is_move step + moves_left u.phase ≤ moves_left s.phase
  Step-moves_left (cancel e) d = rw e (omega arith)
  Step-moves_left (stop p _ e) d = rw (e, p) (omega arith)
  Step-moves_left {s = s} (stop_failed x p _ e) d = rw e (attempt-left s.phase p)
  Step-moves_left (begin p off e) d = absurd (ground arith)
  Step-moves_left (registered now p e) d = rw (e, p) (omega arith)
  Step-moves_left (fail x p off e) d = absurd (ground arith)
  Step-moves_left (serve session device stack now p e) d = rw (e, p) (omega arith)
  Step-moves_left (stats text raw now later p e) d = rw e (omega arith)
  Step-moves_left (probe q now later p e) d = rw e (omega arith)
  Step-moves_left (close p _ e) d = rw (e, p) (omega arith)
  Step-moves_left (wake delay p e) d = rw (e, p) (omega arith)
  Step-moves_left (stop_waiting delay p _ e) d = rw (e, p) (omega arith)

  -- A step of the thread that the end of the context leads to; it waits for no timer, for no answer
  -- of the network, and for no other thread.
  abbrev pub IsPrompt : {s u : Sys F} → Step floats s u → Type 0
  IsPrompt (stop _ _ _) = Unit {0}
  IsPrompt (stop_failed _ _ _ _) = Unit {0}
  IsPrompt (close _ _ _) = Unit {0}
  IsPrompt (stop_waiting _ _ _ _) = Unit {0}
  IsPrompt _ = ⊥

  -- The thread has returned, or it can do so at once.
  abbrev pub Returns : Sys F → Type 0
  Returns s =
      (s.phase ≡ finished)
      ⊎ ((u : Sys F) × (step : Step floats s u) × IsPrompt step × (u.phase ≡ finished))

  pub advance : (s : Sys F) (p : Phase) → s.phase ≡ p → s.ctx_done ≡ true → Returns s
  advance s finished e d = inl e
  advance s starting e d = inr (record s { phase = finished }, stop e d refl, tt, refl)
  advance s attempting e d =
      inr (record s { phase = finished }, stop_failed context_done (rw e refl) d refl, tt, refl)
  advance s keyed e d =
      inr (record s { phase = finished }, stop_failed context_done (rw e refl) d refl, tt, refl)
  advance s serving e d =
      inr (record s { phase = finished; tunnel = cleanup true s.tunnel }, close e d refl, tt, refl)
  advance s (waiting delay) e d =
      inr (record s { phase = finished }, stop_waiting delay e d refl, tt, refl)

  pub phase-le : (p : Phase) → moves_left p ≤ 3
  phase-le finished = omega arith
  phase-le starting = omega arith
  phase-le serving = omega arith
  phase-le attempting = omega arith
  phase-le keyed = omega arith
  phase-le (waiting _) = omega arith
