-- ===== src/Pia/Exchange/Redirects.antt =====
-- The requests that redirects lead a client.Do to.
use piaproxy.Base.{
  ℕ, zero, suc, ap, ◌⊎◌, ◌≡◌, refl, inl, inr, Option, none, some, [], ◌∷◌, arith, Bytes,
}
use piaproxy.Base.Result.{Result, ok, err}
use piaproxy.Net.{NetError}
use piaproxy.Pia.Http.{HttpReply}
use piaproxy.Pia.Regions.{ServerEndpoint}
use piaproxy.Pia.Register.{AnswerText, Certificates}
use piaproxy.Pia.Exchange.{
  QueryText, Peer, Trace, nothing_done, Redirect, final, broken, moved, dial_tls, send, round_trip,
  follow, do_request,
}
use piaproxy.Pia.Exchange.Trails.{IsTarget, Kept, Found, Source, over_tls}
use piaproxy.Pia.Exchange.Requests.{Dialled, dial_tls-Dialled, round_trip-Kept}

module _ {Cert : Type 0} (text : AnswerText) (certs : Certificates Cert) (query : QueryText)
    (peer : Peer Cert) where
  Redirect-cases :
      (d : Redirect)
      → (d ≡ final) ⊎ ((e : NetError) × (d ≡ broken e)) ⊎ ((to : Bytes) × (d ≡ moved to))
  Redirect-cases final = inl refl
  Redirect-cases (broken e) = inr (inl (e, refl))
  Redirect-cases (moved to) = inr (inr (to, refl))

  -- The trace is kept, and an answer that is returned was found in it.
  abbrev pub Traced : ServerEndpoint → Bytes → Result NetError HttpReply × Trace → Type 0
  Traced server first u =
      Kept text certs query peer server first u.1
      × ((a : HttpReply) → u.0 ≡ ok a → Found text certs query peer server u.1 a)

  failed-Traced :
      (server : ServerEndpoint) (first : Bytes) (e : NetError) (t : Trace)
      → Kept text certs query peer server first t
      → Traced server first (err e, t)
  failed-Traced server first e t k = (k, λ a h. absurd (ground arith))

  final-Traced :
      (n : ℕ) (server : ServerEndpoint) (first url : Bytes) (u : Result NetError HttpReply × Trace)
      → Kept text certs query peer server first u.1
      → Source text certs query peer server n url u
      → Traced server first u
  final-Traced n server first url u k s = (
    k,
    λ a h.
        let (replied, origin) = s a h in
        record { number = n; url = url; replied = replied; origin = origin },
  )

  follow-Traced :
      (left n : ℕ) (server : ServerEndpoint) (first url : Bytes)
      (u : Result NetError HttpReply × Trace)
      → Kept text certs query peer server first u.1
      → Source text certs query peer server n url u
      → Traced server first (follow text certs query peer left n server url u)
  unfolding follow
  follow-Traced zero n server first url (err e, t) k s = failed-Traced server first e t k
  follow-Traced (suc left) n server first url (err e, t) k s = failed-Traced server first e t k
  follow-Traced zero n server first url (ok r, t) k s =
      elim (Redirect-cases (peer.redirect url r)) [
        | inl same ↦ rw (same, follow) (final-Traced n server first url (ok r, t) k s)
        | inr (inl (e, same)) ↦ rw (same, follow) (failed-Traced server first e t k)
        | inr (inr (to, same)) ↦ rw (same, follow) (failed-Traced server first _ t k)
      ]
  follow-Traced (suc left) n server first url (ok r, t) k s =
      elim (Redirect-cases (peer.redirect url r)) [
        | inl same ↦ rw (same, follow) (final-Traced n server first url (ok r, t) k s)
        | inr (inl (e, same)) ↦ rw (same, follow) (failed-Traced server first e t k)
        | inr (inr (to, same)) ↦
            let target : IsTarget text certs query peer to = record {
              number = n;
              from = url;
              answer = r;
              replied = (s r refl).0;
              leads = same;
            } in
            let (k', s') =
              round_trip-Kept text certs query peer (suc n) server first to t target k in
            rw (same, follow)
              (follow-Traced left (suc n) server first to
                (round_trip text certs query peer (suc n) server to t) k' s')
      ]

  -- A request that failed before anything was sent.
  abbrev pub Silent : Result NetError HttpReply × Trace → Type 0
  Silent u = (e : NetError) × (u.0 ≡ err e) × (u.1.sent ≡ []) × (u.1.in_clear ≡ [])

  first-Traced :
      (server : ServerEndpoint) (url : Bytes) (r : Option NetError × Trace)
      → Dialled text certs query peer server nothing_done r
      → let u = follow text certs query peer 9 0 server url (send text certs query peer 0 url r) in
        Silent u ⊎ Traced server url u
  unfolding follow
  first-Traced server url (some e, t) d = inl (e, refl, d.sent, d.in_clear)
  first-Traced server url (none, t) d =
      let kept : Kept text certs query peer server url (record t { sent = url ∷ t.sent }) = record {
        dialled = rw d.dialled (refl, tt);
        secured = d.secured refl;
        later = [];
        sent = ap (◌∷◌ url) d.sent;
        followed = tt;
        in_clear = rw d.in_clear tt;
      } in
      inr (
        follow-Traced 9 0 server url url (peer.reply 0 url, record t { sent = url ∷ t.sent }) kept
          (λ a h. (h, over_tls t.sent (d.secured refl) refl)))

  pub do_request-Traced :
      (server : ServerEndpoint) (url : Bytes) (bad_url : Option NetError)
      → let u = do_request text certs query peer server url bad_url in
        Silent u ⊎ Traced server url u
  do_request-Traced server url (some e) = inl (e, refl, refl, refl)
  do_request-Traced server url none =
      first-Traced server url (dial_tls text certs query peer 0 server nothing_done)
        (dial_tls-Dialled text certs query peer 0 server nothing_done)
