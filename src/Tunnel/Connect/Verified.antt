-- ===== src/Tunnel/Connect/Verified.antt =====
-- With whom a session is made.
use piaproxy.Base.{ℕ, ◌≡◌, Bytes}
use piaproxy.Base.Result.{Result, ok}
use piaproxy.Pia.Http.{HttpReply}
use piaproxy.Pia.Regions.{ServerEndpoint}
use piaproxy.Pia.Register.{WireGuardConfig}
use piaproxy.Pia.Register.Answer.{Accepted}
use piaproxy.Pia.Exchange.{add_key_url, Trace}
use piaproxy.Pia.Exchange.Trails.{Kept, Found}
use piaproxy.Pia.Network.{Network, add_key_answer}
use piaproxy.Pia.Client.{Pia, WgSession}

module _ {Cert : Type 0} (world : Network Cert) where
  -- A session agrees with an accepted answer to a registration at a server, which was found in a
  -- trace whose connections were all verified for that server.
  pub record IsFrom (server : ServerEndpoint) (s : WgSession) : Type 0 where
    pub call : ℕ
    pub token : Bytes
    pub public : Bytes
    pub trace : Trace
    pub answer : HttpReply
    pub config : WireGuardConfig
    pub kept :
        Kept world.answer_text world.certificates world.query
          (world.peer call server)
          server
          (add_key_url world.query server token public)
          trace
    pub found :
        Found world.answer_text world.certificates world.query
          (world.peer call server)
          server
          trace
          answer
    pub answered : add_key_answer world call server token public ≡ ok answer
    pub accepted : Accepted world.answer_text server.ip answer config
    pub peer_ip : s.peer_ip ≡ config.peer_ipv4
    pub key : s.server_public_key ≡ config.server_public_key

  abbrev pub IsGenuine : WgSession → Type 0
  IsGenuine s = IsFrom s.server s

  -- Every session that a call returns is genuine.
  abbrev Yields : {E : Type 0} → Result E WgSession × Pia → Type 0
  Yields r = (s : WgSession) → r.0 ≡ ok s → IsGenuine s
