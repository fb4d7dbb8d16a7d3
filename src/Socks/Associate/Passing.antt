-- ===== src/Socks/Associate/Passing.antt =====
-- One event of an association in front of the traffic that follows.
use mathlib.Core.List.{append_assoc, append-nil}
use piaproxy.Base.{
  ◌≡◌, subst, sym, ◌∙◌, ap, inl, inr, Option, none, some, List, [], ◌∷◌, ◌++◌, take, Bytes,
}
use piaproxy.Base.Result.{ok, Result-cases}
use piaproxy.Socks.Wire.{SocksAddr}
use piaproxy.Socks.Datagram.{parse_udp_request, marshal_udp}
use piaproxy.Socks.State.{Env, Conn, UdpEvent, from_client, from_target}
use piaproxy.Socks.Associate.{buffer_size, handle_udp_response, after_response}
use piaproxy.Socks.Associate.Traffic.{
  Sub, skip, keep, Sub-nil, requests, answers, Relays, after_response-Same, Request, Answer,
  handle_udp_response-Answer,
}

module _ (env : Env) where
  pub nothing :
      (es : List UdpEvent) (sender : Option Bytes) (c d : Conn)
      → d.to_targets ≡ c.to_targets
      → d.to_client ≡ c.to_client
      → Relays env es sender c d
  nothing es sender c d t k = record {
    sent = [];
    to_targets = t ∙ sym (append-nil _);
    asked = Sub-nil _;
    got = [];
    to_client = k ∙ sym (append-nil _);
    answered = Sub-nil _;
  }

  pub same-Relays :
      (es : List UdpEvent) (sender : Option Bytes) (c d x : Conn)
      → d.to_targets ≡ c.to_targets
      → d.to_client ≡ c.to_client
      → Relays env es sender d x
      → Relays env es sender c x
  same-Relays es sender c d x t k r = record {
    sent = r.sent;
    to_targets = r.to_targets ∙ ap (λ l. l ++ r.sent) t;
    asked = r.asked;
    got = r.got;
    to_client = r.to_client ∙ ap (λ l. l ++ r.got) k;
    answered = r.answered;
  }

  -- An event that sends nothing itself.
  pub later :
      (e : UdpEvent) (es : List UdpEvent) (sender : Option Bytes) (c d : Conn)
      → ((xs : List (SocksAddr × Bytes))
          → Sub xs (requests env.net es)
          → Sub xs (requests env.net (e ∷ es)))
      → ((xs : List (Bytes × Bytes))
          → Sub xs (answers env.net sender es)
          → Sub xs (answers env.net sender (e ∷ es)))
      → Relays env es sender c d
      → Relays env (e ∷ es) sender c d
  later e es sender c d up down r = record {
    sent = r.sent;
    to_targets = r.to_targets;
    asked = up r.sent r.asked;
    got = r.got;
    to_client = r.to_client;
    answered = down r.got r.answered;
  }

  pub pass_request :
      (datagram addr : Bytes) (es : List UdpEvent) {xs : List (SocksAddr × Bytes)}
      → Sub xs (requests env.net es)
      → Sub xs (requests env.net (from_client (ok (datagram, addr)) ∷ es))
  pass_request datagram addr es s =
      elim (Result-cases (parse_udp_request env.net (take buffer_size datagram))) [
        | inl ((u, payload), p) ↦ rw (p, requests) (skip s)
        | inr (e, p) ↦ rw (p, requests) s
      ]

  pub pass_answer :
      (a : SocksAddr) (bytes : Bytes) (es : List UdpEvent) (sender : Option Bytes)
      {xs : List (Bytes × Bytes)}
      → Sub xs (answers env.net sender es)
      → Sub xs (answers env.net sender (from_target a (ok bytes) ∷ es))
  pass_answer a bytes es none s = s
  pass_answer a bytes es (some addr) s =
      elim (Result-cases (marshal_udp env.net (record { frag = 0; addr = a }))) [
        | inl (pkt, p) ↦ rw (p, answers) (skip s)
        | inr (e, p) ↦ rw (p, answers) s
      ]

  -- A datagram of the client in front of what follows.
  pub Request-Relays :
      (datagram addr : Bytes) (es : List UdpEvent) (sender : Option Bytes) (c d x : Conn)
      → Request env datagram addr c d
      → Relays env es (some addr) d x
      → Relays env (from_client (ok (datagram, addr)) ∷ es) sender c x
  Request-Relays datagram addr es sender c d x q r = elim q.sent [
    | inl same ↦ record {
      sent = r.sent;
      to_targets = r.to_targets ∙ ap (λ t. t ++ r.sent) same;
      asked = pass_request datagram addr es r.asked;
      got = r.got;
      to_client = r.to_client ∙ ap (λ t. t ++ r.got) q.to_client;
      answered = r.answered;
    }
    | inr (u, payload, p, more) ↦ record {
      sent = (u.addr, payload) ∷ r.sent;
      to_targets = r.to_targets ∙ ap (λ t. t ++ r.sent) more ∙ append_assoc c.to_targets _ r.sent;
      asked = rw (p, requests) (keep r.asked);
      got = r.got;
      to_client = r.to_client ∙ ap (λ t. t ++ r.got) q.to_client;
      answered = r.answered;
    }
  ]

  pub Answer-Relays :
      (a : SocksAddr) (bytes : Bytes) (es : List UdpEvent) (c d x : Conn)
      → Answer env a bytes c d
      → Relays env es c.udp_client_addr d x
      → Relays env (from_target a (ok bytes) ∷ es) c.udp_client_addr c x
  Answer-Relays a bytes es c d x q r = elim q.got [
    | inl same ↦ record {
      sent = r.sent;
      to_targets = r.to_targets ∙ ap (λ t. t ++ r.sent) q.to_targets;
      asked = r.asked;
      got = r.got;
      to_client = r.to_client ∙ ap (λ t. t ++ r.got) same;
      answered = pass_answer a bytes es c.udp_client_addr r.answered;
    }
    | inr (addr, pkt, s, m, more) ↦ record {
      sent = r.sent;
      to_targets = r.to_targets ∙ ap (λ t. t ++ r.sent) q.to_targets;
      asked = r.asked;
      got = (addr, pkt ++ take buffer_size bytes) ∷ r.got;
      to_client = r.to_client ∙ ap (λ t. t ++ r.got) more ∙ append_assoc c.to_client _ r.got;
      answered = kept addr pkt s m;
    }
  ]
    where
      kept :
          (addr pkt : Bytes)
          → c.udp_client_addr ≡ some addr
          → marshal_udp env.net (record { frag = 0; addr = a }) ≡ ok pkt
          → Sub
              ((addr, pkt ++ take buffer_size bytes) ∷ r.got)
              (answers env.net c.udp_client_addr (from_target a (ok bytes) ∷ es))
      kept addr pkt s m =
          let front : Sub r.got (answers env.net (some addr) es) =
            subst (λ o. Sub r.got (answers env.net o es)) s r.answered in
          subst
            (λ o.
              Sub ((addr, pkt ++ take buffer_size bytes) ∷ r.got)
                (answers env.net o (from_target a (ok bytes) ∷ es)))
            (sym s) (rw (m, answers) (keep front))

  -- What a response leaves, whatever its result did to the goroutine of the target.
  pub after_response-Answer :
      (a : SocksAddr) (bytes : Bytes) (c : Conn)
      → Answer env a bytes c (after_response a (handle_udp_response env a (ok bytes) c))
  after_response-Answer a bytes c =
      let q = handle_udp_response-Answer env a bytes c in
      let (t, k, s, l) = after_response-Same a (handle_udp_response env a (ok bytes) c) in
      record {
        sender = s ∙ q.sender;
        to_targets = t ∙ q.to_targets;
        listening = l ∙ q.listening;
        got = elim q.got [
          | inl same ↦ inl (k ∙ same)
          | inr (addr, pkt, o, m, more) ↦ inr (addr, pkt, o, m, k ∙ more)
        ];
      }
