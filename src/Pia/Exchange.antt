-- ===== src/Pia/Exchange.antt =====
-- The request of registerWireGuardKey: the dial, the TLS handshake with its verification, and what is
-- sent over the connection.
pub mod Query
pub mod Trails
pub mod Requests
pub mod Redirects
pub mod Guarded
use piaproxy.Base.{
  ℕ, zero, suc, if◌then◌else◌, Bool, true, false, Option, none, some, List, [], ◌∷◌, ◌++◌, All,
  Bytes, codes, ◌≡◌, ◌≢◌,
}
use piaproxy.Base.Int.{ℤ}
use piaproxy.Base.Result.{Result, ok, err}
use piaproxy.Net.{NetError, other}
use piaproxy.Net.Decimal.{itoa}
use piaproxy.Pia.Http.{PiaError, HttpReply, transport}
use piaproxy.Pia.Regions.{ServerEndpoint}
use piaproxy.Pia.Register.{
  WireGuardConfig, AnswerText, Certificates, TlsError, no_peer_certificates, common_name_mismatch,
  not_verified, verify_connection, register_answer,
}

-- url.QueryEscape, with its inverse: an escaped text has none of the marks of a query.
pub record QueryText : Type 0 where
  pub escape : Bytes → Bytes
  pub unescape : Bytes → Bytes
  pub unescape-escape : (s : Bytes) → unescape (escape s) ≡ s
  pub escape-no_ampersand : (s : Bytes) → All (λ c. c ≢ b'&') (escape s)

-- What client.Do makes of a reply: it returns it, cannot follow where it redirects, or goes on with
-- another URL.
pub data Redirect : Type 0 where
  final : Redirect
  broken : NetError → Redirect
  moved : Bytes → Redirect

-- What answers a registration: the dialer of the caller, if there is one, and that of the package
-- net; the TLS handshakes, the replies, and the decisions of net/http, by the number of the request
-- among those of one client.Do, whose first is 0.
pub record Peer (Cert : Type 0) : Type 0 where
  pub http_dial : Option (Bytes → Bytes → Option NetError)
  pub net_dial : Bytes → Bytes → Option NetError
  -- An error of the handshake, or the certificates that VerifyConnection is called with.
  pub handshake : ℕ → Result NetError (List Cert)
  -- http.NewRequest: an error for a URL that does not parse.
  pub url_error : Bytes → Option NetError
  -- The reply to a request for a URL, over TLS or in the clear; in the clear also an error of the
  -- dialer of net/http.
  pub reply : ℕ → Bytes → Result NetError HttpReply
  -- What the client makes of a reply to a URL.
  pub redirect : Bytes → HttpReply → Redirect
  -- The scheme of a URL is https.
  pub is_https : Bytes → Bool
  -- A redirected https request goes over a TLS connection of this transport that is still open.
  pub reuses : ℕ → Bool

-- What client.Do did on the network, the last first: the addresses that DialTLSContext dialled, the
-- URLs that were requested over TLS, and those that were requested in the clear.
pub record Trace : Type 0 where
  pub dialled : List Bytes
  pub sent : List Bytes
  pub in_clear : List Bytes
  -- A connection was closed before anything was sent over it.
  pub closed : Bool

abbrev pub nothing_done : Trace
nothing_done = record { dialled = []; sent = []; in_clear = []; closed = false }

abbrev pub tls_text : TlsError → NetError
tls_text no_peer_certificates = other (codes "no peer certificates")
tls_text common_name_mismatch = other (codes "certificate CN mismatch")
tls_text not_verified = other (codes "certificate not verified")

-- `serverIP:port`.
unfoldable pub server_addr : ServerEndpoint → Bytes
server_addr server = server.ip ++ (b':' ∷ itoa server.port)

module _ (query : QueryText) where
  -- The endpoint of addKey.
  unfoldable pub add_key_url : ServerEndpoint → Bytes → Bytes → Bytes
  add_key_url server token public =
      codes "https://"
      ++ (server.ip
          ++ (b':'
              ∷ (itoa server.port
                  ++ (codes "/addKey"
                      ++ (b'?'
                          ∷ (codes "pt="
                              ++ (query.escape token
                                  ++ (b'&' ∷ (codes "pubkey=" ++ query.escape public)))))))))

module _ {Cert : Type 0} (peer : Peer Cert) where
  -- `dialFunc`.
  unfoldable pub dial_func : Bytes → Bytes → Option NetError
  dial_func network addr = elim peer.http_dial [
    | some dial ↦ dial network addr
    | none ↦ peer.net_dial network addr
  ]

module _ {Cert : Type 0} (text : AnswerText) (certs : Certificates Cert) (query : QueryText)
    (peer : Peer Cert) where
  -- HandshakeContext, where the callback decides whether the connection is used.
  abbrev pub after_handshake :
      ServerEndpoint → Result NetError (List Cert) → Trace → Option NetError × Trace
  after_handshake server (err e) t = (some e, record t { closed = true })
  after_handshake server (ok chain) t =
      elim (verify_connection certs text.equal_fold server.cn chain) [
        | some e ↦ (some (tls_text e), record t { closed = true })
        | none ↦ (none, t)
      ]

  abbrev pub after_dial : ℕ → ServerEndpoint → Option NetError → Trace → Option NetError × Trace
  after_dial n server (some e) t = (some e, t)
  after_dial n server none t = after_handshake server (peer.handshake n) t

  -- DialTLSContext, which dials the server whatever the URL says.
  unfoldable pub dial_tls : ℕ → ServerEndpoint → Trace → Option NetError × Trace
  dial_tls n server t =
      after_dial n server (dial_func peer (codes "tcp") (server_addr server))
        (record t { dialled = server_addr server ∷ t.dialled })

  -- A request over a connection of the dialer.
  abbrev pub send : ℕ → Bytes → Option NetError × Trace → Result NetError HttpReply × Trace
  send n url (some e, t) = (err e, t)
  send n url (none, t) = (peer.reply n url, record t { sent = url ∷ t.sent })

  -- A request that a redirect leads to: the transport has a dialer of its own for https only.
  unfoldable pub round_trip : ℕ → ServerEndpoint → Bytes → Trace → Result NetError HttpReply × Trace
  round_trip n server url t =
      if peer.is_https url
      then send n url (if peer.reuses n then (none, t) else dial_tls n server t)
      else (peer.reply n url, record t { in_clear = url ∷ t.in_clear })

  -- The redirects that client.Do follows: a client without CheckRedirect stops after ten requests.
  unfoldable pub follow :
      ℕ
      → ℕ
      → ServerEndpoint
      → Bytes
      → Result NetError HttpReply × Trace
      → Result NetError HttpReply × Trace
  follow left n server url (err e, t) = (err e, t)
  follow zero n server url (ok r, t) = elim (peer.redirect url r) [
    | final ↦ (ok r, t)
    | broken e ↦ (err e, t)
    | moved to ↦ (err (other (codes "stopped after 10 redirects")), t)
  ]
  follow (suc left) n server url (ok r, t) = elim (peer.redirect url r) [
    | final ↦ (ok r, t)
    | broken e ↦ (err e, t)
    | moved to ↦ follow left (suc n) server to (round_trip (suc n) server to t)
  ]

  -- http.NewRequestWithContext and client.Do.
  abbrev pub do_request :
      ServerEndpoint → Bytes → Option NetError → Result NetError HttpReply × Trace
  do_request server url (some e) = (err e, nothing_done)
  do_request server url none = follow 9 0 server url (send 0 url (dial_tls 0 server nothing_done))

  -- `registerWireGuardKey`.
  unfoldable pub register_wireguard_key :
      ServerEndpoint → Bytes → Bytes → Result PiaError WireGuardConfig × Trace
  register_wireguard_key server token public =
      let url = add_key_url query server token public in
      let (reply, t) = do_request server url (peer.url_error url) in
      (register_answer text server.ip reply, t)
