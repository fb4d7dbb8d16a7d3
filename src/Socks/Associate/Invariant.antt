-- ===== src/Socks/Associate/Invariant.antt =====
-- What holds of an association after any events.
use piaproxy.Base.{
  if-cases, ◌||◌, ◌≡◌, inl, inr, some, List, [], ◌∷◌, ◌++◌, if◌then◌else◌, take, All, IsByte, Bytes,
  codes, Option-cases, Bool-cases,
}
use piaproxy.Base.Result.{Result, ok, err, Result-cases}
use piaproxy.Net.{IpText, NetError}
use piaproxy.Socks.Wire.{SocksAddr}
use piaproxy.Socks.Addr.{host_port}
use piaproxy.Socks.Addr.Host.{IsCanonical}
use piaproxy.Socks.Datagram.{parse_udp_request, marshal_udp}
use piaproxy.Socks.Datagram.RoundTrip.{parse-marshal_udp, parse_udp-IsCanonical}
use piaproxy.Socks.State.{Env, Conn, Target, UdpEvent, from_client, from_target, tcp_done}
use piaproxy.Socks.Associate.{
  send_to_target, has_target, is_live, get_or_dial, handle_udp_request, handle_udp_response,
  transfer_udp, after_request, after_response, is_timeout, is_closed, is_eof, buffer_size, UdpError,
}
use piaproxy.Socks.Associate.Targets.{
  Distinct, Distinct-stop_target, All-stop_target, All-is_live, All-concat, All-take,
}

-- A packet that a client reads as a whole datagram from `source`.
pub record Framed (net : IpText) (packet : Bytes) : Type 0 where
  pub source : SocksAddr
  pub payload : Bytes
  pub reads_back : parse_udp_request net packet ≡ ok (record { frag = 0; addr = source }, payload)

pub record Inv (net : IpText) (ts : List Target) (sent : List (Bytes × Bytes)) : Type 0 where
  pub distinct : Distinct ts
  pub canonical : All (λ t. IsCanonical net t.target) ts
  pub framed : All (λ m. Framed net m.1) sent

abbrev pub IsSound : Env → Conn → Type 0
IsSound env c = Inv env.net c.targets c.to_client

-- A datagram of the client is made of bytes.
abbrev pub IsDatagrams : List UdpEvent → Type 0
IsDatagrams [] = Unit {0}
IsDatagrams (from_client (ok (d, _)) ∷ es) = All IsByte d × IsDatagrams es
IsDatagrams (_ ∷ es) = IsDatagrams es

module _ (env : Env) where
  get_or_dial-IsSound :
      (a : SocksAddr) (c : Conn)
      → IsCanonical env.net a
      → IsSound env c
      → IsSound env (get_or_dial env a c).1
  unfolding get_or_dial
  get_or_dial-IsSound a c k v = elim (Bool-cases (has_target a c.targets)) [
    | inl old ↦ rw (old, get_or_dial) v
    | inr new ↦ elim (Result-cases (env.dial (codes "udp") (host_port a))) [
      | inl (l, d) ↦
          rw (new, d, get_or_dial)
            (record {
              distinct = (new, v.distinct);
              canonical = (k, v.canonical);
              framed = v.framed;
            })
      | inr (e, d) ↦ rw (new, d, get_or_dial) v
    ]
  ]

  send_to_target-IsSound :
      (a : SocksAddr) (payload : Bytes) (r : Result UdpError (Unit {0}) × Conn)
      → IsSound env r.1
      → IsSound env (send_to_target env a payload r).1
  send_to_target-IsSound a payload (ok _, c) v = v
  send_to_target-IsSound a payload (err e, c) v = v

  handle_udp_request-IsSound :
      (d sender : Bytes) (c : Conn)
      → All IsByte d
      → IsSound env c
      → IsSound env (handle_udp_request env (ok (d, sender)) c).1
  unfolding handle_udp_request
  handle_udp_request-IsSound d sender c b v =
      elim (Result-cases (parse_udp_request env.net (take buffer_size d))) [
        | inl ((u, payload), p) ↦
            rw (p, handle_udp_request)
              (send_to_target-IsSound u.addr payload
                (get_or_dial env u.addr (record c { udp_client_addr = some sender }))
                (get_or_dial-IsSound u.addr (record c { udp_client_addr = some sender })
                  (parse_udp-IsCanonical env.net (take buffer_size d) payload u
                    (All-take buffer_size d b) p)
                  v))
        | inr (e, p) ↦ rw (p, handle_udp_request) v
      ]

  after_request-IsSound :
      (r : Result UdpError (Unit {0}) × Conn) → IsSound env r.1 → IsSound env (after_request r)
  after_request-IsSound (ok _, c) v = v
  after_request-IsSound (err e, c) v = elim (Bool-cases (is_timeout e)) [
    | inl t ↦ rw t v
    | inr t ↦ elim (Bool-cases (is_closed e)) [
      | inl k ↦ rw (t, k) (record { distinct = tt; canonical = tt; framed = v.framed })
      | inr k ↦ rw (t, k) v
    ]
  ]

  handle_udp_response-IsSound :
      (a : SocksAddr) (bytes : Bytes) (c : Conn)
      → IsCanonical env.net a
      → IsSound env c
      → IsSound env (handle_udp_response env a (ok bytes) c).1
  unfolding handle_udp_response
  handle_udp_response-IsSound a bytes c k v = elim (Option-cases c.udp_client_addr) [
    | inl nobody ↦ let (pkt, m, p) = header in rw (m, nobody, handle_udp_response) v
    | inr (sender, known) ↦
        let (pkt, m, p) = header in
        rw (m, known, handle_udp_response)
          (record {
            distinct = v.distinct;
            canonical = v.canonical;
            framed =
                All-concat (λ (x : Bytes × Bytes). Framed env.net x.1) c.to_client
                  (sender, pkt ++ take buffer_size bytes) v.framed
                  (record { source = a; payload = take buffer_size bytes; reads_back = p });
          })
  ]
    where
      header :
          (pkt : Bytes) × (marshal_udp env.net (record { frag = 0; addr = a }) ≡ ok pkt)
          × (parse_udp_request env.net (pkt ++ take buffer_size bytes)
              ≡ ok (record { frag = 0; addr = a }, take buffer_size bytes))
      header = parse-marshal_udp env.net (record { frag = 0; addr = a }) (take buffer_size bytes) k

  after_response-IsSound :
      (a : SocksAddr) (r : Result UdpError (Unit {0}) × Conn)
      → IsSound env r.1
      → IsSound env (after_response a r)
  after_response-IsSound a (ok _, c) v = v
  after_response-IsSound a (err e, c) v = elim (Bool-cases (is_timeout e)) [
    | inl t ↦ rw t v
    | inr t ↦ elim (Bool-cases (is_closed e || is_eof e)) [
      | inl k ↦
          rw (t, k)
            (record {
              distinct = Distinct-stop_target a c.targets v.distinct;
              canonical = All-stop_target (IsCanonical env.net) a c.targets v.canonical;
              framed = v.framed;
            })
      | inr k ↦ rw (t, k) v
    ]
  ]

  client_step :
      (r : Result NetError (Bytes × Bytes)) (es : List UdpEvent) (c : Conn)
      → IsDatagrams (from_client r ∷ es)
      → IsSound env c
      → IsSound env (if c.listening then after_request (handle_udp_request env r c) else c)
  client_step r es c b v =
      if-cases (IsSound env) c.listening
        (λ on. after_request-IsSound (handle_udp_request env r c) (handled r b)) (λ off. v)
    where
      handled :
          (r : Result NetError (Bytes × Bytes))
          → IsDatagrams (from_client r ∷ es)
          → IsSound env (handle_udp_request env r c).1
      handled (ok (d, sender)) b = handle_udp_request-IsSound d sender c b.0 v
      handled (err e) b = unfold handle_udp_request in v

  target_step :
      (a : SocksAddr) (r : Result NetError Bytes) (c : Conn)
      → IsSound env c
      → IsSound env
          (if is_live a c.targets then after_response a (handle_udp_response env a r c) else c)
  target_step a r c v =
      if-cases (IsSound env) (is_live a c.targets)
        (λ on.
          after_response-IsSound a (handle_udp_response env a r c)
            (handled r (All-is_live (IsCanonical env.net) a c.targets v.canonical on)))
        (λ off. v)
    where
      handled :
          (r : Result NetError Bytes)
          → IsCanonical env.net a
          → IsSound env (handle_udp_response env a r c).1
      handled (ok bytes) k = handle_udp_response-IsSound a bytes c k v
      handled (err e) k = unfold handle_udp_response in v

  IsDatagrams-tail : (e : UdpEvent) (es : List UdpEvent) → IsDatagrams (e ∷ es) → IsDatagrams es
  IsDatagrams-tail (from_client (ok (d, _))) es b = b.1
  IsDatagrams-tail (from_client (err _)) es b = b
  IsDatagrams-tail (from_target _ _) es b = b
  IsDatagrams-tail (tcp_done _) es b = b

  -- Under every sequence of events whose client datagrams are bytes, an association that starts
  -- sound has at most one connection for an address, has only targets that a header can name, and
  -- sends the client only packets that parse as whole datagrams.
  pub transfer_udp-IsSound :
      (es : List UdpEvent) (c : Conn)
      → IsDatagrams es
      → IsSound env c
      → IsSound env (transfer_udp env es c).1
  unfolding transfer_udp
  transfer_udp-IsSound [] c b v = v
  transfer_udp-IsSound (from_client r ∷ es) c b v =
      transfer_udp-IsSound es _ (IsDatagrams-tail (from_client r) es b) (client_step r es c b v)
  transfer_udp-IsSound (from_target a r ∷ es) c b v =
      transfer_udp-IsSound es _ b (target_step a r c v)
  transfer_udp-IsSound (tcp_done e ∷ es) c b v = v
