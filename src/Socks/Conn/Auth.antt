-- ===== src/Socks/Conn/Auth.antt =====
-- Authentication: who reaches the dialer.
use piaproxy.Base.{
  ◌≡◌, ◌⊎◌, inl, inr, true, false, not, ◌||◌, List, [], ◌∷◌, ◌++◌, arith, str_eq, str_eq_iff,
  contains, Bytes, Bool-cases,
}
use piaproxy.Base.Result.{ok}
use piaproxy.Socks.Reader.{Reader-cases}
use piaproxy.Socks.Handshake.{parse_client_greeting, parse_client_auth}
use piaproxy.Socks.Handshake.Formats.{
  greeting, credentials, parse_client_greeting_iff, parse_client_auth_iff,
}
use piaproxy.Socks.State.{Env, Conn, Credentials, CopyEvent, UdpEvent}
use piaproxy.Socks.Conn.{write, handle_request, need_auth, auth_method, run}

module _ (env : Env) (server : Credentials) (traffic : List CopyEvent)
    (events : List UdpEvent) where
  -- What the client must have sent for its request to be looked at.
  pub data Admitted (c : Conn) : Type 0 where
    open_server :
        (methods rest : Bytes)
        → need_auth server ≡ false
        → contains 0 methods ≡ true
        → c.unread ≡ greeting methods ++ rest
        → run env server traffic events c
          ≡ handle_request env traffic events (write (5 ∷ 0 ∷ []) (record c { unread = rest }))
        → Admitted c
    with_password :
        (methods rest : Bytes)
        → need_auth server ≡ true
        → contains 2 methods ≡ true
        → c.unread ≡ greeting methods ++ (credentials server.username server.password ++ rest)
        → run env server traffic events c
          ≡ handle_request env traffic events
              (write (1 ∷ 0 ∷ []) (write (5 ∷ 2 ∷ []) (record c { unread = rest })))
        → Admitted c

  -- The connection ends before a request is read: nothing was dialled, copied or relayed.
  pub record TurnedAway (c : Conn) (d : Conn) : Type 0 where
    pub dials : d.dials ≡ c.dials
    pub uploaded : d.uploaded ≡ c.uploaded
    pub request : d.request ≡ c.request
    pub to_targets : d.to_targets ≡ c.to_targets
    pub rx : d.rx_bytes ≡ c.rx_bytes
    pub tx : d.tx_bytes ≡ c.tx_bytes
    -- No acceptable method, or an authentication error after the method was accepted.
    pub told :
        (d.written ≡ c.written ++ 5 ∷ 255 ∷ [])
        ⊎ ((d.written ≡ (c.written ++ 5 ∷ 2 ∷ []) ++ 1 ∷ 1 ∷ []) × (need_auth server ≡ true))

  with_method :
      (c : Conn) (methods rest : Bytes)
      → need_auth server ≡ true
      → contains 2 methods ≡ true
      → c.unread ≡ greeting methods ++ rest
      → parse_client_greeting 2 c.unread ≡ (ok tt, rest)
      → Admitted c ⊎ TurnedAway c (run env server traffic events c).1
  unfolding run auth_method
  with_method c methods rest need h e p = elim (Reader-cases parse_client_auth rest) [
    | inr (x, left, f) ↦ inr (ground arith)
    | inl ((user, pwd), left, f) ↦
        elim (Bool-cases (not (str_eq user server.username) || not (str_eq pwd server.password))) [
          | inl wrong ↦ inr (ground arith)
          | inr right ↦
              let same : (user ≡ server.username) × (pwd ≡ server.password) =
                ground (arith, str_eq_iff user server.username, str_eq_iff pwd server.password) in
              let packet = (parse_client_auth_iff user pwd rest left).0 f in
              inl (
                with_password methods left need h (rw (← same.0, ← same.1, ← packet) e)
                  (ground arith))
        ]
  ]

  -- For every client input and network, a connection is turned away before any dial, copy, relay
  -- or request, with one of the two refusals written, or the client offered the required method
  -- and, on a server with credentials, sent exactly these before the rest was handled as a
  -- request.
  pub run-Admitted : (c : Conn) → Admitted c ⊎ TurnedAway c (run env server traffic events c).1
  unfolding run auth_method
  run-Admitted c = elim (Reader-cases (parse_client_greeting (auth_method server)) c.unread) [
    | inr (x, rest, f) ↦ inr (ground arith)
    | inl (_, rest, f) ↦
        let (methods, e, h) = (parse_client_greeting_iff (auth_method server) c.unread rest).0 f in
        elim (Bool-cases (need_auth server)) [
          | inl need ↦ with_method c methods rest need (ground arith) e (ground arith)
          | inr none_needed ↦
              inl (open_server methods rest none_needed (ground arith) e (ground arith))
        ]
  ]
