-- ===== src/Socks/Associate/Delivery.antt =====
-- An association on a network that works: nothing that the client asked for is lost.
use mathlib.Core.List.{append_assoc, append-nil}
use piaproxy.Base.{
  ◌≡◌, ◌≢◌, refl, sym, ◌∙◌, ap, inl, inr, true, List, [], ◌∷◌, ◌++◌, All, arith, length, take,
  Bool-cases, Bytes, codes, if◌then◌else◌,
}
use piaproxy.Base.Result.{Result, ok, err, Result-cases}
use piaproxy.Net.{NetError, closed}
use piaproxy.Socks.Wire.{SocksAddr}
use piaproxy.Socks.Addr.{host_port}
use piaproxy.Socks.Datagram.{parse_udp_request}
use piaproxy.Socks.State.{Env, Conn, UdpEvent, from_client, from_target, tcp_done}
use piaproxy.Socks.Associate.{
  buffer_size, has_target, is_live, get_or_dial, wrote, handle_udp_request, handle_udp_response,
  after_request, after_response, is_timeout, is_closed, transfer_udp,
}
use piaproxy.Socks.Associate.Traffic.{requests, after_response-Same, handle_udp_response-Answer}

-- The packet connection of the client is not closed.
abbrev pub StaysOpen : UdpEvent → Type 0
StaysOpen (from_client (err e)) = e ≢ closed
StaysOpen _ = Unit {0}

module _ (env : Env)
    (dials : (addr : Bytes) → (local_addr : Bytes) × (env.dial (codes "udp") addr ≡ ok local_addr))
    (writes : (a : SocksAddr) (bytes : Bytes) → env.write_target a bytes ≡ ok (length bytes)) where
  whole : (a : SocksAddr) (bytes : Bytes) → wrote bytes (env.write_target a bytes) ≡ ok tt
  whole a bytes = rw (writes a bytes) (ground arith)

  -- A datagram leaves the loop running, and is passed on if it parses.
  request-sent :
      (datagram addr : Bytes) (es : List UdpEvent) (c : Conn)
      → let d = after_request (handle_udp_request env (ok (datagram, addr)) c) in
        (d.listening ≡ c.listening)
        × (d.to_targets ++ requests env.net es
            ≡ c.to_targets ++ requests env.net (from_client (ok (datagram, addr)) ∷ es))
  unfolding handle_udp_request get_or_dial is_timeout is_closed
  request-sent datagram addr es c =
      elim (Result-cases (parse_udp_request env.net (take buffer_size datagram))) [
        | inr (e, p) ↦ rw (p, handle_udp_request, requests) (refl, refl)
        | inl ((u, payload), p) ↦ elim (Bool-cases (has_target u.addr c.targets)) [
          | inl there ↦
              rw (p, handle_udp_request, there, get_or_dial, whole u.addr payload, requests)
                (refl, append_assoc c.to_targets _ _)
          | inr new ↦
              let (local_addr, f) = dials (host_port u.addr) in
              rw (p, handle_udp_request, new, get_or_dial, f, whole u.addr payload, requests)
                (refl, append_assoc c.to_targets _ _)
        ]
      ]

  read_failed :
      (e : NetError) (c : Conn)
      → e ≢ closed
      → let d = after_request (handle_udp_request env (err e) c) in
        (d.listening ≡ c.listening) × (d.to_targets ≡ c.to_targets)
  unfolding handle_udp_request is_timeout is_closed
  read_failed e c h = ground arith

  responded :
      (a : SocksAddr) (r : Result NetError Bytes) (c : Conn)
      → let d = after_response a (handle_udp_response env a r c) in
        (d.listening ≡ c.listening) × (d.to_targets ≡ c.to_targets)
  unfolding handle_udp_response
  responded a (err e) c =
      let (t, k, s, l) = after_response-Same a (handle_udp_response env a (err e) c) in (l, t)
  responded a (ok bytes) c =
      let (t, k, s, l) = after_response-Same a (handle_udp_response env a (ok bytes) c) in
      let q = handle_udp_response-Answer env a bytes c in (l ∙ q.listening, t ∙ q.to_targets)

  -- If every dial succeeds, every write to a target is whole, and the packet connection of the
  -- client is not closed, an association that listens hands to its targets, one after the other,
  -- exactly the datagrams of the client that parse, each under the address and with the payload
  -- that its first 8192 bytes have, until the TCP connection of the client ends.
  pub transfer_udp-sends :
      (es : List UdpEvent) (c : Conn)
      → c.listening ≡ true
      → All StaysOpen es
      → (transfer_udp env es c).1.to_targets ≡ c.to_targets ++ requests env.net es
  unfolding transfer_udp
  transfer_udp-sends [] c h o = sym (append-nil _)
  transfer_udp-sends (tcp_done e ∷ es) c h o = sym (append-nil _)
  transfer_udp-sends (from_client (err e) ∷ es) c h o =
      let d = after_request (handle_udp_request env (err e) c) in
      let (l, t) = read_failed e c o.0 in
      ap (λ b. (transfer_udp env es (if b then d else c)).1.to_targets) h
      ∙ transfer_udp-sends es d (l ∙ h) o.1
      ∙ ap (λ x. x ++ requests env.net es) t
  transfer_udp-sends (from_client (ok (datagram, addr)) ∷ es) c h o =
      let d = after_request (handle_udp_request env (ok (datagram, addr)) c) in
      let (l, t) = request-sent datagram addr es c in
      ap (λ b. (transfer_udp env es (if b then d else c)).1.to_targets) h
      ∙ transfer_udp-sends es d (l ∙ h) o.1
      ∙ t
  transfer_udp-sends (from_target a r ∷ es) c h o =
      let d = after_response a (handle_udp_response env a r c) in
      let (l, t) = responded a r c in
      elim (Bool-cases (is_live a c.targets)) [
        | inl live ↦
            ap (λ b. (transfer_udp env es (if b then d else c)).1.to_targets) live
            ∙ transfer_udp-sends es d (l ∙ h) o.1
            ∙ ap (λ x. x ++ requests env.net es) t
        | inr dead ↦
            ap (λ b. (transfer_udp env es (if b then d else c)).1.to_targets) dead
            ∙ transfer_udp-sends es c h o.1
      ]
