-- ===== src/Socks/Associate/Traffic.antt =====
-- The traffic of an association: what came in, what may go out, and one step of each goroutine.
use piaproxy.Base.{
  ◌≡◌, ◌⊎◌, refl, inl, inr, false, Option, none, some, List, [], ◌∷◌, ◌++◌, arith, take, codes,
  Bool-cases, Option-cases, Bytes,
}
use piaproxy.Base.Result.{Result, ok, err, Result-cases}
use piaproxy.Net.{IpText}
use piaproxy.Socks.Wire.{SocksAddr, UdpRequest}
use piaproxy.Socks.Addr.{host_port}
use piaproxy.Socks.Datagram.{parse_udp_request, marshal_udp}
use piaproxy.Socks.State.{Env, Conn, UdpEvent, from_client, from_target, tcp_done}
use piaproxy.Socks.Associate.{
  buffer_size, has_target, is_live, get_or_dial, UdpError, handle_udp_request, handle_udp_response,
  after_request, after_response, transfer_udp,
}

-- Some of the items of a list, in order.
pub data Sub {ℓ} {A : Type ℓ} : List A → List A → Type ℓ where
  done : Sub [] []
  skip : {x : A} {xs ys : List A} → Sub xs ys → Sub xs (x ∷ ys)
  keep : {x : A} {xs ys : List A} → Sub xs ys → Sub (x ∷ xs) (x ∷ ys)

pub Sub-nil {ℓ} : {A : Type ℓ} (ys : List A) → Sub [] ys
Sub-nil [] = done
Sub-nil (y ∷ ys) = skip (Sub-nil ys)

module _ (net : IpText) where
  -- What the client asked to be sent, as addresses and payloads.
  abbrev pub requests : List UdpEvent → List (SocksAddr × Bytes)
  requests [] = []
  requests (from_client (ok (datagram, _)) ∷ es) =
      let rest = requests es in
      elim (parse_udp_request net (take buffer_size datagram)) [
        | err e ↦ rest
        | ok (u, payload) ↦ (u.addr, payload) ∷ rest
      ]
  requests (tcp_done _ ∷ es) = []
  requests (_ ∷ es) = requests es

  -- What the targets sent, for the last sender of a datagram, each with the header of its target.
  abbrev pub answers : Option Bytes → List UdpEvent → List (Bytes × Bytes)
  answers sender [] = []
  answers sender (from_client (ok (_, addr)) ∷ es) = answers (some addr) es
  answers sender (from_client (err _) ∷ es) = answers sender es
  answers none (from_target a (ok bytes) ∷ es) = answers none es
  answers (some addr) (from_target a (ok bytes) ∷ es) =
      let rest = answers (some addr) es in
      elim (marshal_udp net (record { frag = 0; addr = a })) [
        | err e ↦ rest
        | ok pkt ↦ (addr, pkt ++ take buffer_size bytes) ∷ rest
      ]
  answers sender (from_target a (err _) ∷ es) = answers sender es
  answers sender (tcp_done _ ∷ es) = []

-- Both goroutines' state once the loop of the client has ended.
abbrev pub ended : Conn → Conn
ended c = record c { listening = false; targets = [] }

pub after_request-cases :
    (p : Result UdpError (Unit {0}) × Conn)
    → (after_request p ≡ p.1) ⊎ (after_request p ≡ ended p.1)
after_request-cases (ok _, c) = inl refl
after_request-cases (err e, c) = ground arith

pub after_response-Same :
    (a : SocksAddr) (p : Result UdpError (Unit {0}) × Conn)
    → ((after_response a p).to_targets ≡ p.1.to_targets)
      × ((after_response a p).to_client ≡ p.1.to_client)
      × ((after_response a p).udp_client_addr ≡ p.1.udp_client_addr)
      × ((after_response a p).listening ≡ p.1.listening)
after_response-Same a (ok _, c) = ground arith
after_response-Same a (err e, c) = ground arith

module _ (env : Env) where
  -- The datagrams that went each way between two states of an association.
  pub record Relays (es : List UdpEvent) (sender : Option Bytes) (c d : Conn) : Type 0 where
    pub sent : List (SocksAddr × Bytes)
    pub to_targets : d.to_targets ≡ c.to_targets ++ sent
    pub asked : Sub sent (requests env.net es)
    pub got : List (Bytes × Bytes)
    pub to_client : d.to_client ≡ c.to_client ++ got
    pub answered : Sub got (answers env.net sender es)

  -- After the loop has ended, nothing is sent.
  pub still :
      (es : List UdpEvent) (c : Conn)
      → c.listening ≡ false
      → c.targets ≡ []
      → ((transfer_udp env es c).1.to_targets ≡ c.to_targets)
        × ((transfer_udp env es c).1.to_client ≡ c.to_client)
  unfolding transfer_udp is_live
  still [] c l t = (refl, refl)
  still (from_client r ∷ es) c l t = ground (arith, still es c l t)
  still (from_target a r ∷ es) c l t = ground (arith, still es c l t)
  still (tcp_done e ∷ es) c l t = (refl, refl)

  -- One datagram of the client.
  pub record Request (datagram addr : Bytes) (c d : Conn) : Type 0 where
    pub sender : d.udp_client_addr ≡ some addr
    pub to_client : d.to_client ≡ c.to_client
    pub listening : d.listening ≡ c.listening
    pub sent :
        (d.to_targets ≡ c.to_targets)
        ⊎ ((u : UdpRequest) × (payload : Bytes) × (parse_udp_request env.net
                (take buffer_size datagram)
              ≡ ok (u, payload))
            × (d.to_targets ≡ c.to_targets ++ (u.addr, payload) ∷ []))

  pub handle_udp_request-Request :
      (datagram addr : Bytes) (c : Conn)
      → Request datagram addr c (handle_udp_request env (ok (datagram, addr)) c).1
  unfolding handle_udp_request get_or_dial
  handle_udp_request-Request datagram addr c =
      elim (Result-cases (parse_udp_request env.net (take buffer_size datagram))) [
        | inr (e, p) ↦
            rw (p, handle_udp_request)
              (record { sender = refl; to_client = refl; listening = refl; sent = inl refl })
        | inl ((u, payload), p) ↦ elim (Bool-cases (has_target u.addr c.targets)) [
          | inl there ↦
              rw (p, handle_udp_request, there, get_or_dial)
                (record {
                  sender = refl;
                  to_client = refl;
                  listening = refl;
                  sent = inr (u, payload, p, refl);
                })
          | inr new ↦ elim (Result-cases (env.dial (codes "udp") (host_port u.addr))) [
            | inr (e, f) ↦
                rw (p, handle_udp_request, new, get_or_dial, f)
                  (record { sender = refl; to_client = refl; listening = refl; sent = inl refl })
            | inl (local_addr, f) ↦
                rw (p, handle_udp_request, new, get_or_dial, f)
                  (record {
                    sender = refl;
                    to_client = refl;
                    listening = refl;
                    sent = inr (u, payload, p, refl);
                  })
          ]
        ]
      ]

  -- One message of a target.
  pub record Answer (a : SocksAddr) (bytes : Bytes) (c d : Conn) : Type 0 where
    pub sender : d.udp_client_addr ≡ c.udp_client_addr
    pub to_targets : d.to_targets ≡ c.to_targets
    pub listening : d.listening ≡ c.listening
    pub got :
        (d.to_client ≡ c.to_client)
        ⊎ ((addr : Bytes) × (pkt : Bytes) × (c.udp_client_addr ≡ some addr)
            × (marshal_udp env.net (record { frag = 0; addr = a }) ≡ ok pkt)
            × (d.to_client ≡ c.to_client ++ (addr, pkt ++ take buffer_size bytes) ∷ []))

  pub handle_udp_response-Answer :
      (a : SocksAddr) (bytes : Bytes) (c : Conn)
      → Answer a bytes c (handle_udp_response env a (ok bytes) c).1
  unfolding handle_udp_response
  handle_udp_response-Answer a bytes c =
      elim (Result-cases (marshal_udp env.net (record { frag = 0; addr = a }))) [
        | inr (e, p) ↦
            rw (p, handle_udp_response)
              (record { sender = refl; to_targets = refl; listening = refl; got = inl refl })
        | inl (pkt, p) ↦ elim (Option-cases c.udp_client_addr) [
          | inl q ↦
              rw (p, handle_udp_response, q)
                (record { sender = refl; to_targets = refl; listening = refl; got = inl refl })
          | inr (addr, q) ↦
              rw (p, handle_udp_response, q)
                (record {
                  sender = refl;
                  to_targets = refl;
                  listening = refl;
                  got = inr (addr, pkt, refl, p, refl);
                })
        ]
      ]
