-- ===== src/Socks/Listener/Sockets.antt =====
-- The sockets of a listener.
use piaproxy.Base.{
  ltb, ℕ, ◌==◌, ◌≡◌, refl, ◌⊎◌, inl, inr, true, false, not, Option, none, some, List, [], ◌∷◌,
  arith, All, Bytes, contains, if-cases,
}
use piaproxy.Base.Result.{Result, ok, err}
use piaproxy.Net.{NetError}
use piaproxy.Socks.Listener.{
  Socket, SocksListener, Host, new_socks_listener, start, stop, remove, HostEvent, start_called,
  stop_called, parent_canceled, watcher_runs, loop_ends, accept_breaks, end_loop, serves, on_event,
  on_events, bind, halt,
}

-- The socket is the listener's own, or its context is cancelled.
abbrev pub IsOwned : Host → ℕ → Type 0
IsOwned h id = (h.self.cancel ≡ some id) ⊎ (contains id h.canceled ≡ true)

-- What Start and Stop keep in step.
abbrev pub Agrees : SocksListener → Type 0
Agrees l =
    ((l.started ≡ false) × (l.listener ≡ none) × (l.server ≡ none) × (l.cancel ≡ none))
    ⊎ ((s : Socket) × (l.started ≡ true)
        × (l.listener ≡ some s)
        × (l.server ≡ some s.id)
        × (l.cancel ≡ some s.id))

pub record Inv (h : Host) : Type 0 where
  pub owned : All (IsOwned h) h.open_sockets
  pub agrees : Agrees h.self

All-map : (P Q : ℕ → Type 0) (xs : Bytes) → ((x : ℕ) → P x → Q x) → All P xs → All Q xs
All-map P Q [] f h = tt
All-map P Q (x ∷ xs) f h = (f x h.0, All-map P Q xs f h.1)

All-remove : (P : ℕ → Type 0) (id : ℕ) (xs : Bytes) → All P xs → All P (remove id xs)
unfolding remove
All-remove P id [] h = tt
All-remove P id (x ∷ xs) h =
    if-cases (All P) (x == id) (λ hit. All-remove P id xs h.1)
      (λ miss. (h.0, All-remove P id xs h.1))

pub new-Inv : (addr : Bytes) → Inv (new_socks_listener addr)
unfolding new_socks_listener
new-Inv addr = record { owned = tt; agrees = inl (refl, refl, refl, refl) }

-- Without a context of its own, the listener has cancelled those of all sockets.
pub canceled-only :
    (h : Host) (id : ℕ) → h.self.cancel ≡ none → IsOwned h id → contains id h.canceled ≡ true
canceled-only h id e (inl c) = absurd (ground arith)
canceled-only h id e (inr c) = c

bind-Inv :
    (bound : Result NetError Bytes) (h : Host)
    → h.self.started ≡ false
    → Inv h
    → Inv (bind bound h).1
bind-Inv (err e) h idle v = record { owned = v.owned; agrees = v.agrees }
bind-Inv (ok addr) h idle v =
    let unset : h.self.cancel ≡ none = ground (arith, v.agrees) in
    record {
      owned = (
        inl refl,
        All-map (IsOwned h) (IsOwned (bind (ok addr) h).1) h.open_sockets
            (λ id own. inr (canceled-only h id unset own)) v.owned,
      );
      agrees = inr (record { id = h.next_id; bound_addr = addr }, refl, refl, refl, refl);
    }

pub start-Inv : (bound : Result NetError Bytes) (h : Host) → Inv h → Inv (start bound h).1
unfolding start
start-Inv bound h v =
    if-cases (λ (r : Option NetError × Host). Inv r.1) h.self.started (λ on. v)
      (λ off. bind-Inv bound h off v)

stopped :
    (h : Host) (mine id : ℕ)
    → h.self.cancel ≡ some mine
    → IsOwned h id
    → contains id (mine ∷ h.canceled) ≡ true
unfolding contains
stopped h mine id own (inl c) = ground arith
stopped h mine id own (inr c) = ground arith

pub stop-Inv : (h : Host) → Inv h → Inv (stop h)
unfolding stop
stop-Inv h v = if-cases Inv (not h.self.started) (λ idle. v) (λ on. halted v.agrees on)
  where
    halted : Agrees h.self → not h.self.started ≡ false → Inv (halt h)
    halted (inl (off, _, _, _)) on = absurd (ground arith)
    halted (inr (s, _, _, _, own)) on = record {
      owned =
          All-map (IsOwned h) _ h.open_sockets (λ id o. inr (rw own (stopped h s.id id own o)))
            v.owned;
      agrees = inl (refl, refl, refl, refl);
    }

IsOwned-cancel :
    (h : Host) (g id : ℕ) → IsOwned h id → IsOwned (record h { canceled = g ∷ h.canceled }) id
unfolding contains
IsOwned-cancel h g id (inl c) = inl c
IsOwned-cancel h g id (inr c) = inr (ground arith)

end_loop-Inv : (g : ℕ) (h : Host) → Inv h → Inv (end_loop g h)
end_loop-Inv g h v = record {
  owned = All-remove (IsOwned h) g h.open_sockets v.owned;
  agrees = v.agrees;
}

pub on_event-Inv : (e : HostEvent) (h : Host) → Inv h → Inv (on_event e h)
on_event-Inv (start_called bound) h v = start-Inv bound h v
on_event-Inv stop_called h v = stop-Inv h v
on_event-Inv (parent_canceled g) h v = record {
  owned = All-map (IsOwned h) _ h.open_sockets (IsOwned-cancel h g) v.owned;
  agrees = v.agrees;
}
on_event-Inv (watcher_runs g) h v =
    if-cases Inv (contains g h.canceled)
      (λ on. record { owned = All-remove (IsOwned h) g h.open_sockets v.owned; agrees = v.agrees })
      (λ off. v)
on_event-Inv (loop_ends g) h v =
    if-cases Inv (contains g h.open_sockets) (λ runs. v) (λ closed. end_loop-Inv g h v)
on_event-Inv (accept_breaks g) h v = end_loop-Inv g h v
on_event-Inv (serves g e) h v =
    if-cases Inv (ltb g h.next_id) (λ made. record { owned = v.owned; agrees = v.agrees }) (λ _. v)

from-Inv : (es : List HostEvent) (h : Host) → Inv h → Inv (on_events es h)
unfolding on_events
from-Inv [] h v = v
from-Inv (e ∷ es) h v = from-Inv es (on_event e h) (on_event-Inv e h v)

-- However the calls of Start and Stop, the cancelled contexts and the goroutines of a listener
-- come, it has a socket and a context exactly while it is started, the two of one call of Start,
-- and every open socket is that one or has a cancelled context.
pub on_events-Inv :
    (es : List HostEvent) (addr : Bytes) → Inv (on_events es (new_socks_listener addr))
on_events-Inv es addr = from-Inv es (new_socks_listener addr) (new-Inv addr)
