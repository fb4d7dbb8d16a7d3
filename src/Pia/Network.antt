-- ===== src/Pia/Network.antt =====
-- The requests of the client of pia.go, and the answers that it gets to them over the network.
use piaproxy.Base.{ℕ, Option, List, [], ◌∷◌, Bytes, codes}
use piaproxy.Base.Result.{Result}
use piaproxy.Net.{NetError}
use piaproxy.Pia.Http.{HttpReply}
use piaproxy.Pia.Regions.{ServerEndpoint, ListText}
use piaproxy.Pia.Register.{AnswerText, Certificates}
use piaproxy.Pia.Client.{Api}
use piaproxy.Pia.Exchange.{QueryText, Peer, add_key_url, do_request}

-- What is handed to client.Do; a GET has no body and no content type.
pub record HttpRequest : Type 0 where
  pub method : Bytes
  pub url : Bytes
  pub content_type : Bytes
  pub body : Bytes

-- The encoders and decoders, and the answers: to the n-th request for a token and for the list, and
-- what the server of the n-th registration is like.
pub record Network (Cert : Type 0) : Type 0 where
  pub list_text : ListText
  pub answer_text : AnswerText
  pub decode_token : Bytes → Option Bytes
  -- url.Values.Encode of a form.
  pub encode_form : List (Bytes × Bytes) → Bytes
  pub certificates : Certificates Cert
  pub query : QueryText
  pub token_server : ℕ → HttpRequest → Result NetError HttpReply
  pub list_server : ℕ → HttpRequest → Result NetError HttpReply
  pub peer : ℕ → ServerEndpoint → Peer Cert
  pub key_pair : ℕ → Option (Bytes × Bytes)
  pub random : ℕ → ℕ → Option ℕ
  pub now : ℕ → ℕ

module _ {Cert : Type 0} (world : Network Cert) where
  -- The request of fetchAuthToken.
  unfoldable pub token_request : Bytes → Bytes → HttpRequest
  token_request username password = record {
    method = codes "POST";
    url = codes "https://www.privateinternetaccess.com/api/client/v2/token";
    content_type = codes "application/x-www-form-urlencoded";
    body = world.encode_form ((codes "username", username) ∷ (codes "password", password) ∷ []);
  }

  -- The request of fetchServerList.
  unfoldable pub list_request : HttpRequest
  list_request = record {
    method = codes "GET";
    url = codes "https://serverlist.piaservers.net/vpninfo/servers/v6";
    content_type = [];
    body = [];
  }

  -- The answer to the n-th registration.
  unfoldable pub add_key_answer : ℕ → ServerEndpoint → Bytes → Bytes → Result NetError HttpReply
  add_key_answer n server token public =
      let url = add_key_url world.query server token public in
      let peer = world.peer n server in
      (do_request world.answer_text world.certificates world.query peer server url
        (peer.url_error url)).0

  -- The endpoints that the client asks.
  abbrev pub api_of : Api
  api_of = record {
    list_text = world.list_text;
    answer_text = world.answer_text;
    decode_token = world.decode_token;
    token_reply = λ n username password. world.token_server n (token_request username password);
    list_reply = λ n. world.list_server n list_request;
    add_key_reply = add_key_answer;
    key_pair = world.key_pair;
    random = world.random;
    now = world.now;
  }
