-- ===== src/Pia/Exchange/Requests.antt =====
-- One dial and one request of a client.Do.
use piaproxy.Base.{
  ℕ, ap, ◌∙◌, if◌then◌else◌, if-cases, ◌≡◌, refl, inl, inr, Option, none, some, List, ◌∷◌, arith,
  Bytes, codes, Option-cases,
}
use piaproxy.Base.Result.{Result, ok, err}
use piaproxy.Net.{NetError}
use piaproxy.Pia.Http.{HttpReply}
use piaproxy.Pia.Regions.{ServerEndpoint}
use piaproxy.Pia.Register.{AnswerText, Certificates, verify_connection}
use piaproxy.Pia.Exchange.{
  QueryText, Peer, Trace, server_addr, dial_func, after_handshake, dial_tls, send, round_trip,
}
use piaproxy.Pia.Exchange.Trails.{
  verify_connection-IsVerified, Secured, IsTarget, Kept, Source, over_tls, unprotected,
}

module _ {Cert : Type 0} (text : AnswerText) (certs : Certificates Cert) (query : QueryText)
    (peer : Peer Cert) where
  pub record Dialled (server : ServerEndpoint) (t : Trace) (r : Option NetError × Trace)
      : Type 0 where
    pub dialled : r.1.dialled ≡ server_addr server ∷ t.dialled
    pub sent : r.1.sent ≡ t.sent
    pub in_clear : r.1.in_clear ≡ t.in_clear
    pub secured : r.0 ≡ none → Secured text certs query peer server

  handshake-Dialled :
      (n : ℕ) (server : ServerEndpoint) (t : Trace) (h : Result NetError (List Cert))
      → peer.handshake n ≡ h
      → Dialled server t (
          after_handshake text certs query peer server h
            (record t { dialled = server_addr server ∷ t.dialled }))
  handshake-Dialled n server t (err e) same = record {
    dialled = refl;
    sent = refl;
    in_clear = refl;
    secured = λ e. absurd (ground arith);
  }
  handshake-Dialled n server t (ok chain) same =
      elim (Option-cases (verify_connection certs text.equal_fold server.cn chain)) [
        | inr (e, bad) ↦
            rw (bad, after_handshake)
              (record {
                dialled = refl;
                sent = refl;
                in_clear = refl;
                secured = λ e. absurd (ground arith);
              })
        | inl good ↦
            rw (good, after_handshake)
              (record {
                dialled = refl;
                sent = refl;
                in_clear = refl;
                secured = λ _. record {
                  number = n;
                  chain = chain;
                  handshake = same;
                  verified = verify_connection-IsVerified text certs query peer server chain good;
                };
              })
      ]

  pub dial_tls-Dialled :
      (n : ℕ) (server : ServerEndpoint) (t : Trace)
      → Dialled server t (dial_tls text certs query peer n server t)
  unfolding dial_tls
  dial_tls-Dialled n server t =
      elim (Option-cases (dial_func peer (codes "tcp") (server_addr server))) [
        | inr (e, bad) ↦ rw bad (record {
          dialled = refl;
          sent = refl;
          in_clear = refl;
          secured = λ e. absurd (ground arith);
        })
        | inl good ↦ rw good (handshake-Dialled n server t (peer.handshake n) refl)
      ]

  dial_tls-Kept :
      (n : ℕ) (server : ServerEndpoint) (first : Bytes) (t : Trace)
      → Kept text certs query peer server first t
      → Kept text certs query peer server first (dial_tls text certs query peer n server t).1
  dial_tls-Kept n server first t k =
      let d = dial_tls-Dialled n server t in
      record {
        dialled = rw d.dialled (refl, k.dialled);
        secured = k.secured;
        later = k.later;
        sent = d.sent ∙ k.sent;
        followed = k.followed;
        in_clear = rw d.in_clear k.in_clear;
      }

  send-Kept :
      (n : ℕ) (server : ServerEndpoint) (first url : Bytes) (r : Option NetError × Trace)
      → IsTarget text certs query peer url
      → Kept text certs query peer server first r.1
      → let u = send text certs query peer n url r in
        Kept text certs query peer server first u.1 × Source text certs query peer server n url u
  send-Kept n server first url (some e, t) target k = (k, λ a h. absurd (ground arith))
  send-Kept n server first url (none, t) target k = (
    record {
      dialled = k.dialled;
      secured = k.secured;
      later = url ∷ k.later;
      sent = ap (◌∷◌ url) k.sent;
      followed = (target, k.followed);
      in_clear = k.in_clear;
    },
    λ a h. (h, over_tls t.sent k.secured refl),
  )

  pub round_trip-Kept :
      (n : ℕ) (server : ServerEndpoint) (first url : Bytes) (t : Trace)
      → IsTarget text certs query peer url
      → Kept text certs query peer server first t
      → let u = round_trip text certs query peer n server url t in
        Kept text certs query peer server first u.1 × Source text certs query peer server n url u
  unfolding round_trip
  round_trip-Kept n server first url t target k =
      if-cases
        (λ (u : Result NetError HttpReply × Trace).
          Kept text certs query peer server first u.1 × Source text certs query peer server n url u)
        (peer.is_https url)
        (λ https.
          send-Kept n server first url
            (if peer.reuses n then (none, t) else dial_tls text certs query peer n server t) target
            (if-cases (λ (r : Option NetError × Trace). Kept text certs query peer server first r.1)
              (peer.reuses n) (λ _. k) (λ _. dial_tls-Kept n server first t k)))
        (λ http. (
          record {
            dialled = k.dialled;
            secured = k.secured;
            later = k.later;
            sent = k.sent;
            followed = k.followed;
            in_clear = ((target, http), k.in_clear);
          },
          λ a h. (h, unprotected t.in_clear http refl),
        ))
