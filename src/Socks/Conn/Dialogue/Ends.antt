-- ===== src/Socks/Conn/Dialogue/Ends.antt =====
-- How a request ends: what was written after the negotiation, and what moved.
use mathlib.Core.List.{append_assoc}
use piaproxy.Base.{
  ℕ, ◌%◌, ◌^◌, ◌≡◌, ◌⊎◌, refl, sym, ◌∙◌, ap, inl, inr, some, List, [], ◌∷◌, ◌++◌, arith, length,
  if-cases, Bytes, codes, ◌==◌, ==_iff, true,
}
use piaproxy.Base.Result.{ok, err, Result-cases}
use piaproxy.Net.{join_host_port}
use piaproxy.Socks.Wire.{Request, connect, udp_associate, general_failure, command_not_supported}
use piaproxy.Socks.Reader.{Reader-cases}
use piaproxy.Socks.Addr.{host_port}
use piaproxy.Socks.Handshake.{parse_client_request}
use piaproxy.Socks.State.{Env, Conn, CopyEvent, UdpEvent, Outcome}
use piaproxy.Socks.Associate.{transfer_udp}
use piaproxy.Socks.Server.{new_conn}
use piaproxy.Socks.Conn.{
  relay, split_host_port, success_bytes, error_bytes, listen_udp, handle_tcp, handle_udp,
  handle_request,
}
use piaproxy.Socks.Conn.Replies.{failure, marshal-error_response}
use piaproxy.Socks.Conn.Relay.{downloaded, sent_up, relay-Counted}
use piaproxy.Socks.Conn.Dialogue.Kept.{relay-SameRequest, transfer_udp-SameStream}

-- A new connection that has `rest` left to read and has written `hello`.
abbrev pub after_hello : Bytes → Bytes → Conn
after_hello rest hello = record (new_conn rest) { written = hello }

pub record Unmoved (d : Conn) : Type 0 where
  pub uploaded : d.uploaded ≡ []
  pub rx : d.rx_bytes ≡ 0
  pub tx : d.tx_bytes ≡ 0

pub nothing_moved : {d : Conn} → d.uploaded ≡ [] → d.rx_bytes ≡ 0 → d.tx_bytes ≡ 0 → Unmoved d
nothing_moved u r t = record { uploaded = u; rx = r; tx = t }

module _ (env : Env) (traffic : List CopyEvent) (events : List UdpEvent) where
  -- The bytes that were copied each way are all that was counted.
  pub record Copied (unread : Bytes) (d : Conn) : Type 0 where
    pub uploaded : d.uploaded ≡ sent_up traffic unread
    pub rx : d.rx_bytes ≡ length (downloaded traffic) % 2 ^ 64
    pub tx : d.tx_bytes ≡ length (sent_up traffic unread) % 2 ^ 64

  -- The request that stands in `sent`, and what the client sent behind it.
  pub record Asks (sent : Bytes) (command : ℕ) (body : Bytes) (d : Conn) : Type 0 where
    pub req : Request
    pub parsed : parse_client_request env.net sent ≡ (ok req, body)
    pub command_is : req.command ≡ command
    pub dest : d.dest ≡ host_port req.destination

  pub data Ends (sent hello : Bytes) (d : Conn) : Type 0 where
    -- The request was refused, or nothing could be dialled or bound for it.
    failed :
        (code : ℕ)
        → (code ≡ general_failure) ⊎ (code ≡ command_not_supported)
        → d.written ≡ hello ++ failure code
        → Unmoved d
        → Ends sent hello d
    -- The text of a socket's own address does not split.
    silent : d.written ≡ hello → Unmoved d → Ends sent hello d
    copied :
        (host body local_addr : Bytes) (port : ℕ)
        → Asks sent connect body d
        → d.method ≡ codes "tcp"
        → d.dials ≡ (codes "tcp", d.dest) ∷ []
        → env.dial (codes "tcp") d.dest ≡ ok local_addr
        → split_host_port env local_addr ≡ ok (host, port)
        → d.written ≡ hello ++ (success_bytes env host port ++ downloaded traffic)
        → Copied body d
        → Ends sent hello d
    associated :
        (host body local_addr : Bytes) (port : ℕ)
        → Asks sent udp_associate body d
        → d.method ≡ codes "udp"
        → split_host_port env local_addr ≡ ok (host, port)
        → d.written ≡ hello ++ success_bytes env host port
        → Unmoved d
        → Ends sent hello d

  error-written : (hello : Bytes) (code : ℕ) → hello ++ error_bytes env code ≡ hello ++ failure code
  error-written hello code =
      ap (λ r. hello ++ elim r [ ok buf ↦ buf | err e ↦ [] ]) (marshal-error_response env.net code)

  relay-Ends :
      (req : Request) (sent rest hello host local_addr : Bytes) (port : ℕ)
      → parse_client_request env.net sent ≡ (ok req, rest)
      → req.command ≡ connect
      → env.dial (codes "tcp") (host_port req.destination) ≡ ok local_addr
      → split_host_port env local_addr ≡ ok (host, port)
      → Ends sent hello
          (relay traffic (record (after_hello (rest) hello) {
            request = some req;
            dest = host_port req.destination;
            method = codes "tcp";
            dials = (codes "tcp", host_port req.destination) ∷ [];
            written = hello ++ success_bytes env host port;
          })).1
  relay-Ends req sent rest hello host local_addr port parsed cmd p q =
      let c : Conn = record (after_hello rest hello) {
        request = some req;
        dest = host_port req.destination;
        method = codes "tcp";
        dials = (codes "tcp", host_port req.destination) ∷ [];
        written = hello ++ success_bytes env host port;
      } in
      let kept = relay-SameRequest traffic c in
      let counted = relay-Counted traffic c (omega arith) (omega arith) in
      copied host rest local_addr port
        (record { req = req; parsed = parsed; command_is = cmd; dest = kept.dest }) kept.method
        (kept.dials ∙ ap (λ x. (codes "tcp", x) ∷ []) (sym kept.dest))
        (ap (env.dial (codes "tcp")) kept.dest ∙ p) q
        (counted.written ∙ append_assoc hello (success_bytes env host port) (downloaded traffic))
        (record {
          uploaded = counted.uploaded;
          rx = counted.rx ∙ ap (λ n. n % 2 ^ 64) (omega arith);
          tx = counted.tx ∙ ap (λ n. n % 2 ^ 64) (omega arith);
        })

  transfer-Ends :
      (req : Request) (sent rest hello host local_addr : Bytes) (port : ℕ)
      → parse_client_request env.net sent ≡ (ok req, rest)
      → req.command ≡ udp_associate
      → split_host_port env local_addr ≡ ok (host, port)
      → Ends sent hello
          (transfer_udp env events (record (after_hello rest hello) {
            request = some req;
            dest = host_port req.destination;
            method = codes "udp";
            written = hello ++ success_bytes env host port;
            listening = true;
          })).1
  transfer-Ends req sent rest hello host local_addr port parsed cmd split =
      let same = transfer_udp-SameStream env events (record (after_hello rest hello) {
        request = some req;
        dest = host_port req.destination;
        method = codes "udp";
        written = hello ++ success_bytes env host port;
        listening = true;
      }) in
      associated host rest local_addr port
        (record { req = req; parsed = parsed; command_is = cmd; dest = same.dest }) same.method
        split same.written (nothing_moved same.uploaded same.rx same.tx)

  handle_tcp-Ends :
      (req : Request) (sent rest hello : Bytes)
      → parse_client_request env.net sent ≡ (ok req, rest)
      → req.command ≡ connect
      → Ends sent hello
          (handle_tcp env traffic req (record (after_hello rest hello) { request = some req })).1
  unfolding handle_tcp
  handle_tcp-Ends req sent rest hello parsed cmd =
      elim (Result-cases (env.dial (codes "tcp") (host_port req.destination))) [
        | inr (e, p) ↦
            rw (p, handle_tcp)
              (failed general_failure (inl refl) (error-written hello general_failure)
                (nothing_moved refl refl refl))
        | inl (local_addr, p) ↦ elim (Result-cases (split_host_port env local_addr)) [
          | inr (e, q) ↦ rw (p, handle_tcp, q) (silent refl (nothing_moved refl refl refl))
          | inl ((host, port), q) ↦
              rw (p, handle_tcp, q)
                (relay-Ends req sent rest hello host local_addr port parsed cmd p q)
        ]
      ]

  handle_udp-Ends :
      (req : Request) (sent rest hello : Bytes)
      → parse_client_request env.net sent ≡ (ok req, rest)
      → req.command ≡ udp_associate
      → Ends sent hello
          (handle_udp env events req (record (after_hello rest hello) { request = some req })).1
  unfolding handle_udp
  handle_udp-Ends req sent rest hello parsed cmd =
      elim (Result-cases (env.split_host_port env.client_local)) [
        | inr (e, p) ↦ rw (p, handle_udp) (silent refl (nothing_moved refl refl refl))
        | inl ((host, x), p) ↦
            elim (Result-cases (env.listen_packet (join_host_port host (codes "0")))) [
              | inr (e, q) ↦
                  rw (p, handle_udp, listen_udp, q)
                    (failed general_failure (inl refl) (error-written hello general_failure)
                      (nothing_moved refl refl refl))
              | inl (local_addr, q) ↦ elim (Result-cases (split_host_port env local_addr)) [
                | inr (e, r) ↦
                    rw (p, handle_udp, listen_udp, q, r)
                      (silent refl (nothing_moved refl refl refl))
                | inl ((bound, port), r) ↦
                    rw (p, handle_udp, listen_udp, q, r)
                      (transfer-Ends req sent rest hello bound local_addr port parsed cmd r)
              ]
            ]
      ]

  -- Every way in which a request that is read from a new connection ends.
  pub handle_request-Ends :
      (rest hello : Bytes)
      → Ends rest hello (handle_request env traffic events (after_hello rest hello)).1
  unfolding handle_request
  handle_request-Ends rest hello = elim (Reader-cases (parse_client_request env.net) rest) [
    | inr (e, left, p) ↦
        rw (p, handle_request)
          (failed general_failure (inl refl) (error-written hello general_failure)
            (nothing_moved refl refl refl))
    | inl (req, left, p) ↦
        rw (p, handle_request)
          (if-cases (λ (r : Outcome × Conn). Ends rest hello r.1) (req.command == connect)
            (λ y. handle_tcp-Ends req rest left hello p ((==_iff _ connect).0 y))
            (λ _.
              if-cases (λ (r : Outcome × Conn). Ends rest hello r.1) (req.command == udp_associate)
                (λ y. handle_udp-Ends req rest left hello p ((==_iff _ udp_associate).0 y))
                (λ _.
                  (failed command_not_supported (inr refl)
                    (error-written hello command_not_supported) (nothing_moved refl refl refl)))))
  ]
