-- ===== src/Pia/Exchange/Guarded.antt =====
-- To whom a token is sent, and from whom a configuration comes.
use piaproxy.Base.{◌≡◌, [], Bytes}
use piaproxy.Base.Result.{Result, ok, err}
use piaproxy.Net.{NetError}
use piaproxy.Pia.Http.{PiaError, HttpReply, transport}
use piaproxy.Pia.Regions.{ServerEndpoint}
use piaproxy.Pia.Register.{WireGuardConfig, AnswerText, Certificates}
use piaproxy.Pia.Register.Answer.{Accepted}
use piaproxy.Pia.Exchange.{QueryText, Peer, Trace}
use piaproxy.Pia.Exchange.Query.{fields_of}
use piaproxy.Pia.Exchange.Trails.{Kept, Found}

module _ {Cert : Type 0} (text : AnswerText) (certs : Certificates Cert) (query : QueryText)
    (peer : Peer Cert) where
  pub data Exchanged (server : ServerEndpoint) (token public : Bytes)
      (r : Result PiaError WireGuardConfig × Trace) : Type 0 where
    -- Nothing was sent.
    silent :
        (e : NetError)
        → r.0 ≡ err (transport e)
        → r.1.sent ≡ []
        → r.1.in_clear ≡ []
        → Exchanged server token public r
    -- A URL with the token and the key was sent over TLS.
    asked :
        (url : Bytes)
        → Kept text certs query peer server url r.1
        → fields_of query url ≡ (token, public)
        → ((wg : WireGuardConfig)
            → r.0 ≡ ok wg
            → (a : HttpReply) × Found text certs query peer server r.1 a
              × Accepted text server.ip a wg)
        → Exchanged server token public r
