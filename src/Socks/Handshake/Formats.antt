-- ===== src/Socks/Handshake/Formats.antt =====
-- Each packet of the handshake against its layout in RFC 1928 and RFC 1929.
use mathlib.Core.List.{append_assoc}
use piaproxy.Base.{
  ℕ, ◌≡◌, ◌↔◌, inl, inr, true, [], ◌∷◌, ◌++◌, All, IsByte, Bytes, arith, Option-cases, contains,
  length,
}
use piaproxy.Base.Result.{ok}
use piaproxy.Net.{IpText}
use piaproxy.Socks.Wire.{Request}
use piaproxy.Socks.Reader.{Reader-cases, read_full, read_full-append}
use piaproxy.Socks.Addr.{parse_socks_addr, marshal_addr}
use piaproxy.Socks.Addr.Host.{read_full-eq-some, IsCanonical}
use piaproxy.Socks.Addr.RoundTrip.{marshal-parse}
use piaproxy.Socks.Handshake.{parse_client_greeting, parse_client_auth, parse_client_request}

-- The greeting that offers `methods`.
abbrev pub greeting : Bytes → Bytes
greeting methods = 5 ∷ length methods ∷ methods

greeting-accepted :
    (auth : ℕ) (methods rest : Bytes)
    → contains auth methods ≡ true
    → parse_client_greeting auth (greeting methods ++ rest) ≡ (ok tt, rest)
unfolding parse_client_greeting read_full
greeting-accepted auth methods rest h = ground (arith, read_full-append methods rest)

greeting-only :
    (auth : ℕ) (r rest : Bytes)
    → parse_client_greeting auth r ≡ (ok tt, rest)
    → (methods : Bytes) × (r ≡ greeting methods ++ rest) × (contains auth methods ≡ true)
unfolding parse_client_greeting read_full
greeting-only auth [] rest e = absurd (ground arith)
greeting-only auth (v ∷ []) rest e = absurd (ground arith)
greeting-only auth (v ∷ n ∷ r) rest e = elim (Option-cases (read_full n r)) [
  | inl f ↦ absurd (ground arith)
  | inr ((ms, left), f) ↦
      (ms, ground (arith, read_full-eq-some n r {bs = ms} {rest = left} f), ground arith)
]

-- A greeting is accepted exactly when it has version 5 and a list of methods of the announced
-- length with the required method in it, and what follows is left unread.
pub parse_client_greeting_iff :
    (auth : ℕ) (r rest : Bytes)
    → (parse_client_greeting auth r ≡ (ok tt, rest))
      ↔ ((methods : Bytes) × (r ≡ greeting methods ++ rest) × (contains auth methods ≡ true))
parse_client_greeting_iff auth r rest =
    (greeting-only auth r rest, λ (methods, e, h). rw e (greeting-accepted auth methods rest h))

-- The packet with a username and a password.
abbrev pub credentials : Bytes → Bytes → Bytes
credentials usr pwd = 1 ∷ length usr ∷ (usr ++ length pwd ∷ pwd)

auth-accepted :
    (usr pwd rest : Bytes) → parse_client_auth (credentials usr pwd ++ rest) ≡ (ok (usr, pwd), rest)
unfolding parse_client_auth read_full
auth-accepted usr pwd rest =
    rw (append_assoc usr (length pwd ∷ pwd) rest)
      (ground (arith, read_full-append usr (length pwd ∷ (pwd ++ rest)), read_full-append pwd rest))

auth-only :
    (usr pwd r rest : Bytes)
    → parse_client_auth r ≡ (ok (usr, pwd), rest)
    → r ≡ credentials usr pwd ++ rest
unfolding parse_client_auth read_full
auth-only usr pwd [] rest e = absurd (ground arith)
auth-only usr pwd (v ∷ []) rest e = absurd (ground arith)
auth-only usr pwd (v ∷ n ∷ r) rest e = elim (Option-cases (read_full n r)) [
  | inl f ↦ absurd (ground arith)
  | inr ((us, []), f) ↦ absurd (ground arith)
  | inr ((us, m ∷ left), f) ↦ elim (Option-cases (read_full m left)) [
    | inl g ↦ absurd (ground arith)
    | inr ((ps, left'), g) ↦ ground (
      arith,
      read_full-eq-some n r {bs = us} {rest = m ∷ left} f,
      read_full-eq-some m left {bs = ps} {rest = left'} g,
      append_assoc us (m ∷ ps) left',
    )
  ]
]

-- A packet of credentials is read as a username and a password exactly when it is the packet of
-- RFC 1929 with them, and what follows is left unread.
pub parse_client_auth_iff :
    (usr pwd r rest : Bytes)
    → (parse_client_auth r ≡ (ok (usr, pwd), rest)) ↔ (r ≡ credentials usr pwd ++ rest)
parse_client_auth_iff usr pwd r rest =
    (auth-only usr pwd r rest, λ e. rw e (auth-accepted usr pwd rest))

module _ (net : IpText) where
  -- A request of bytes that is accepted is three bytes, of which the second is its command, and a
  -- canonical address that marshal writes with the same bytes; what follows is left unread.
  pub parse_client_request-layout :
      (r rest : Bytes) (req : Request)
      → All IsByte r
      → parse_client_request net r ≡ (ok req, rest)
      → (v reserved : ℕ) × (pkt : Bytes) × (r ≡ v ∷ req.command ∷ reserved ∷ (pkt ++ rest))
        × (marshal_addr net req.destination ≡ ok pkt)
        × IsCanonical net req.destination
  unfolding parse_client_request read_full
  parse_client_request-layout (v ∷ c ∷ z ∷ r) rest req b e =
      elim (Reader-cases (parse_socks_addr net) r) [
        | inr (er, left, p) ↦ absurd (ground arith)
        | inl (addr, left, p) ↦
            let (canonical, pkt, m, split) = marshal-parse net r left addr b.1.1.1 p in
            let same : req ≡ record { command = c; destination = addr } = ground arith in
            (v, z, pkt, ground arith, rw same m, rw same canonical)
      ]
  parse_client_request-layout _ rest req b e = absurd (ground arith)
