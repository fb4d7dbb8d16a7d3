-- ===== src/Proxy/Draining.antt =====
-- What the listener of a proxy has left to close and to end once it is stopped.
use piaproxy.Base.{
  ℕ, ◌+◌, ◌≤◌, ◌<◌, Bool, true, false, none, ◌≡◌, inl, inr, Bytes, contains, length, [], ◌∷◌, arith,
  Bool-cases, if-cases, All, subst, ◌==◌, ==_iff,
}
use piaproxy.Base.Result.{Result, ok, err}
use piaproxy.Net.{NetError}
use piaproxy.Socks.Listener
use piaproxy.Socks.Listener.{
  SocksOpts, Host, HostEvent, start_called, stop_called, parent_canceled, watcher_runs, loop_ends,
  accept_breaks, serves, on_event, remove, stop, end_loop,
}
use piaproxy.Proxy.{may_happen}
use piaproxy.Socks.Listener.Sockets
use piaproxy.Socks.Listener.Sockets.{IsOwned, canceled-only}

length-remove : (id : ℕ) (xs : Bytes) → length (remove id xs) ≤ length xs
unfolding remove
length-remove id [] = omega arith
length-remove id (x ∷ xs) = ground (arith, length-remove id xs)

length-remove_some :
    (id : ℕ) (xs : Bytes) → contains id xs ≡ true → length (remove id xs) < length xs
unfolding remove contains
length-remove_some id [] h = absurd (ground arith)
length-remove_some id (x ∷ xs) h = ground (arith, length-remove_some id xs, length-remove id xs)

-- The sockets that are open, and the accept loops that run.
abbrev pub left : Host → ℕ
left h = length h.open_sockets + length h.serving

end_loop-le : (id : ℕ) (h : Host) → left (end_loop id h) ≤ left h
end_loop-le id h = omega (arith, length-remove id h.open_sockets, length-remove id h.serving)

pub left-le :
    (done : Bool) (e : HostEvent) (h : Host)
    → may_happen done h.next_id e ≡ true
    → left (on_event e h) ≤ left h
left-le done (start_called bound) h may = absurd (ground arith)
left-le done stop_called h may = absurd (ground arith)
left-le done (parent_canceled id) h may = omega arith
left-le done (watcher_runs id) h may =
    if-cases (λ (k : Host). left k ≤ left h) (contains id h.canceled)
      (λ _. omega (arith, length-remove id h.open_sockets)) (λ _. omega arith)
left-le done (loop_ends id) h may =
    if-cases (λ (k : Host). left k ≤ left h) (contains id h.open_sockets) (λ _. omega arith)
      (λ _. end_loop-le id h)
left-le done (accept_breaks id) h may = end_loop-le id h
left-le done (serves id e) h may = ground arith

pub watcher_runs-less :
    (id : ℕ) (h : Host)
    → contains id h.canceled ≡ true
    → contains id h.open_sockets ≡ true
    → left (on_event (watcher_runs id) h) < left h
watcher_runs-less id h done runs =
    rw done (omega (arith, length-remove_some id h.open_sockets runs))

pub loop_ends-less :
    (id : ℕ) (h : Host)
    → contains id h.open_sockets ≡ false
    → contains id h.serving ≡ true
    → left (on_event (loop_ends id) h) < left h
loop_ends-less id h closed runs =
    rw closed (omega (arith, length-remove id h.open_sockets, length-remove_some id h.serving runs))

pub bind-left :
    (bound : Result NetError Bytes) (h : Host) → left (Listener.start bound h).1 ≤ left h + 2
unfolding Listener.start
bind-left (ok a) h = ground arith
bind-left (err e) h = ground arith

pub stop-left : (h : Host) → left (stop h) ≡ left h
unfolding stop
stop-left h = ground arith

All-contains : (P : ℕ → Type 0) (id : ℕ) (xs : Bytes) → All P xs → contains id xs ≡ true → P id
unfolding contains
All-contains P id [] h e = absurd (ground arith)
All-contains P id (x ∷ xs) h e = elim (Bool-cases (x == id)) [
  | inl hit ↦ subst P ((==_iff x id).0 hit) h.0
  | inr miss ↦ All-contains P id xs h.1 (ground arith)
]

-- A socket that is open while Stop waits has a cancelled context.
pub open-canceled :
    (id : ℕ) (h : Host)
    → Sockets.Inv h
    → h.self.cancel ≡ none
    → contains id h.open_sockets ≡ true
    → contains id h.canceled ≡ true
open-canceled id h v unset still =
    canceled-only h id unset (All-contains (IsOwned h) id h.open_sockets v.owned still)
