-- ===== src/Socks/Associate/Relayed.antt =====
-- What an association passes on, against the datagrams that came in.
use piaproxy.Base.{
  ◌≡◌, refl, subst, sym, ◌∙◌, ap, inl, inr, Bool, true, false, Option, some, List, [], ◌∷◌, Bytes,
  if◌then◌else◌,
}
use piaproxy.Base.Result.{Result, ok, err}
use piaproxy.Net.{NetError}
use piaproxy.Socks.Wire.{SocksAddr}
use piaproxy.Socks.State.{Env, Conn, UdpEvent, from_client, from_target, tcp_done}
use piaproxy.Socks.Associate.{
  is_live, UdpError, handle_udp_request, handle_udp_response, after_request, after_response,
  transfer_udp,
}
use piaproxy.Socks.Associate.Traffic.{
  Relays, ended, after_request-cases, after_response-Same, still, handle_udp_request-Request,
}
use piaproxy.Socks.Associate.Passing.{
  nothing, same-Relays, later, pass_answer, Request-Relays, Answer-Relays, after_response-Answer,
}

module _ (env : Env) where
  on_client :
      (r : Result NetError (Bytes × Bytes)) (es : List UdpEvent) (c : Conn)
      → c.listening ≡ true
      → transfer_udp env (from_client r ∷ es) c
        ≡ transfer_udp env es (after_request (handle_udp_request env r c))
  unfolding transfer_udp
  on_client r es c h =
      ap (λ b. transfer_udp env es (if b then after_request (handle_udp_request env r c) else c)) h

  -- The loop goes on after a request, or it ends and nothing env more is sent.
  after_client :
      (p : Result UdpError (Unit {0}) × Conn) (es : List UdpEvent) (sender : Option Bytes)
      → Relays env es sender p.1 (transfer_udp env es p.1).1
      → Relays env es sender p.1 (transfer_udp env es (after_request p)).1
  after_client p es sender r = elim (after_request-cases p) [
    | inl same ↦ rw same r
    | inr over ↦
        let (t, k) = still env es (ended p.1) refl refl in rw over (nothing env es sender p.1 _ t k)
  ]

  bad_read-Relays :
      (e : NetError) (es : List UdpEvent) (c : Conn)
      → Relays env es c.udp_client_addr c (transfer_udp env es c).1
      → Relays env
          (from_client (err e) ∷ es)
          c.udp_client_addr
          c
          (transfer_udp env es (after_request (handle_udp_request env (err e) c))).1
  unfolding handle_udp_request
  bad_read-Relays e es c r =
      later env (from_client (err e)) es c.udp_client_addr c _ (λ xs s. s) (λ xs s. s)
        (after_client (err (UdpError.read_failed e), c) es c.udp_client_addr r)

  request-Relays :
      (datagram addr : Bytes) (es : List UdpEvent) (c : Conn)
      → ((d : Conn)
          → d.listening ≡ true
          → Relays env es d.udp_client_addr d (transfer_udp env es d).1)
      → c.listening ≡ true
      → Relays env
          (from_client (ok (datagram, addr)) ∷ es)
          c.udp_client_addr
          c
          (transfer_udp env es (after_request (handle_udp_request env (ok (datagram, addr)) c))).1
  request-Relays datagram addr es c ih h =
      let p = handle_udp_request env (ok (datagram, addr)) c in
      let q = handle_udp_request-Request env datagram addr c in
      Request-Relays env datagram addr es c.udp_client_addr c p.1 _ q (
        after_client p es (some addr) (
          subst (λ s. Relays env es s p.1 (transfer_udp env es p.1).1) q.sender
            (ih p.1 (q.listening ∙ h))))

  response-Relays :
      (a : SocksAddr) (r : Result NetError Bytes) (es : List UdpEvent) (c : Conn) (b : Bool)
      → ((d : Conn)
          → d.listening ≡ true
          → Relays env es d.udp_client_addr d (transfer_udp env es d).1)
      → c.listening ≡ true
      → Relays env
          (from_target a r ∷ es)
          c.udp_client_addr
          c
          (transfer_udp env es
            (if b then after_response a (handle_udp_response env a r c) else c)).1
  unfolding handle_udp_response
  response-Relays a (ok bytes) es c true ih h =
      let d = after_response a (handle_udp_response env a (ok bytes) c) in
      let q = after_response-Answer env a bytes c in
      Answer-Relays env a bytes es c d _ q
        (subst (λ s. Relays env es s d (transfer_udp env es d).1) q.sender (ih d (q.listening ∙ h)))
  response-Relays a (ok bytes) es c false ih h =
      later env (from_target a (ok bytes)) es c.udp_client_addr c _ (λ xs s. s)
        (λ xs s. pass_answer env a bytes es c.udp_client_addr s) (ih c h)
  response-Relays a (err e) es c true ih h =
      let d = after_response a (handle_udp_response env a (err e) c) in
      let (t, k, s, l) = after_response-Same a (handle_udp_response env a (err e) c) in
      later env (from_target a (err e)) es c.udp_client_addr c _ (λ xs x. x) (λ xs x. x)
        (same-Relays env es c.udp_client_addr c d _ t k
          (subst (λ o. Relays env es o d (transfer_udp env es d).1) s (ih d (l ∙ h))))
  response-Relays a (err e) es c false ih h =
      later env (from_target a (err e)) es c.udp_client_addr c _ (λ xs s. s) (λ xs s. s) (ih c h)

  -- Under every sequence of events and answers of the network, what an association that listens
  -- hands to its targets is some of the datagrams of the client that parse, in order, and what it
  -- sends to clients is some of the messages of the targets, in order, each cut to 8192 bytes
  -- behind the marshalled header of its target and addressed to the last sender of a datagram
  -- before it; nothing else is sent.
  pub transfer_udp-Relays :
      (es : List UdpEvent) (c : Conn)
      → c.listening ≡ true
      → Relays env es c.udp_client_addr c (transfer_udp env es c).1
  unfolding transfer_udp
  transfer_udp-Relays [] c h = nothing env [] c.udp_client_addr c c refl refl
  transfer_udp-Relays (tcp_done e ∷ es) c h =
      nothing env (tcp_done e ∷ es) c.udp_client_addr c c refl refl
  transfer_udp-Relays (from_client (err e) ∷ es) c h =
      subst (λ t. Relays env (from_client (err e) ∷ es) c.udp_client_addr c t.1)
        (sym (on_client (err e) es c h)) (bad_read-Relays e es c (transfer_udp-Relays es c h))
  transfer_udp-Relays (from_client (ok (datagram, addr)) ∷ es) c h =
      subst (λ t. Relays env (from_client (ok (datagram, addr)) ∷ es) c.udp_client_addr c t.1)
        (sym (on_client (ok (datagram, addr)) es c h))
        (request-Relays datagram addr es c (transfer_udp-Relays es) h)
  transfer_udp-Relays (from_target a r ∷ es) c h =
      response-Relays a r es c (is_live a c.targets) (transfer_udp-Relays es) h
