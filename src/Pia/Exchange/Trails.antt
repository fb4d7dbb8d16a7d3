-- ===== src/Pia/Exchange/Trails.antt =====
-- Whom the transport of a client.Do dials, what is sent, and where an answer comes from.
use piaproxy.Base.{ℕ, ◌++◌, false, ◌≡◌, refl, true, none, List, [], ◌∷◌, All, arith, Bytes}
use piaproxy.Base.Result.{Result, ok}
use piaproxy.Net.{NetError}
use piaproxy.Pia.Http.{HttpReply}
use piaproxy.Pia.Regions.{ServerEndpoint}
use piaproxy.Pia.Register.{AnswerText, Certificates, verify_connection}
use piaproxy.Pia.Exchange.{QueryText, Peer, Trace, server_addr, moved}

module _ {Cert : Type 0} (text : AnswerText) (certs : Certificates Cert) (query : QueryText)
    (peer : Peer Cert) where
  -- The certificates are of the server with that name, and lead to the root of the client.
  pub record IsVerified (server : ServerEndpoint) (chain : List Cert) : Type 0 where
    pub leaf : Cert
    pub intermediates : List Cert
    pub split : chain ≡ leaf ∷ intermediates
    pub named : text.equal_fold (certs.common_name leaf) server.cn ≡ true
    pub trusted : certs.verify intermediates leaf ≡ true

  pub verify_connection-IsVerified :
      (server : ServerEndpoint) (chain : List Cert)
      → verify_connection certs text.equal_fold server.cn chain ≡ none
      → IsVerified server chain
  unfolding verify_connection
  verify_connection-IsVerified server [] h = absurd (ground arith)
  verify_connection-IsVerified server (leaf ∷ rest) h = record {
    leaf = leaf;
    intermediates = rest;
    split = refl;
    named = ground arith;
    trusted = ground arith;
  }

  -- A handshake of this client.Do was verified for the server.
  pub record Secured (server : ServerEndpoint) : Type 0 where
    pub number : ℕ
    pub chain : List Cert
    pub handshake : peer.handshake number ≡ ok chain
    pub verified : IsVerified server chain

  -- A reply redirected the client to the URL.
  pub record IsTarget (url : Bytes) : Type 0 where
    pub number : ℕ
    pub from : Bytes
    pub answer : HttpReply
    pub replied : peer.reply number from ≡ ok answer
    pub leads : peer.redirect from answer ≡ moved url

  -- Every dial is of the server, a handshake was verified for it, the first URL went over TLS, and
  -- every other one was reached by a redirect, in the clear only if its scheme is not https.
  pub record Kept (server : ServerEndpoint) (first : Bytes) (t : Trace) : Type 0 where
    pub dialled : All (λ a. a ≡ server_addr server) t.dialled
    pub secured : Secured server
    pub later : List Bytes
    pub sent : t.sent ≡ later ++ first ∷ []
    pub followed : All IsTarget later
    pub in_clear : All (λ u. IsTarget u × (peer.is_https u ≡ false)) t.in_clear

  -- The URL was the last one requested over TLS, or the last one in the clear.
  pub data Origin (server : ServerEndpoint) (t : Trace) (url : Bytes) : Type 0 where
    over_tls : (before : List Bytes) → Secured server → t.sent ≡ url ∷ before → Origin server t url
    unprotected :
        (before : List Bytes)
        → peer.is_https url ≡ false
        → t.in_clear ≡ url ∷ before
        → Origin server t url

  -- Where an answer comes from.
  pub record Found (server : ServerEndpoint) (t : Trace) (a : HttpReply) : Type 0 where
    pub number : ℕ
    pub url : Bytes
    pub replied : peer.reply number url ≡ ok a
    pub origin : Origin server t url

  abbrev pub Source : ServerEndpoint → ℕ → Bytes → Result NetError HttpReply × Trace → Type 0
  Source server n url r =
      (a : HttpReply) → r.0 ≡ ok a → (peer.reply n url ≡ ok a) × Origin server r.1 url
