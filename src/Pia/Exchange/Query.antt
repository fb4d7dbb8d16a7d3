-- ===== src/Pia/Exchange/Query.antt =====
-- The two fields in the query of the addKey URL.
use piaproxy.Base.{
  ℕ, ◌==◌, ◌≡◌, ◌≢◌, refl, ◌∙◌, [], ◌∷◌, ◌++◌, if◌then◌else◌, All, arith, Bytes, codes,
}
use piaproxy.Net.Decimal.{itoa, itoa-All}
use piaproxy.Pia.Regions.{ServerEndpoint}
use piaproxy.Pia.Exchange.{QueryText, add_key_url}

-- The parts of a text round the first occurrence of a byte.
abbrev pub before : ℕ → Bytes → Bytes
before sep [] = []
before sep (c ∷ cs) = let rest = before sep cs in if c == sep then [] else c ∷ rest

abbrev pub after : ℕ → Bytes → Bytes
after sep [] = []
after sep (c ∷ cs) = let rest = after sep cs in if c == sep then cs else rest

before-append :
    (sep : ℕ) (xs ys : Bytes) → All (λ c. c ≢ sep) xs → before sep (xs ++ (sep ∷ ys)) ≡ xs
before-append sep [] ys h = ground arith
before-append sep (x ∷ xs) ys h = ground (arith, before-append sep xs ys h.1, h.0)

after-append : (sep : ℕ) (xs ys : Bytes) → All (λ c. c ≢ sep) xs → after sep (xs ++ (sep ∷ ys)) ≡ ys
after-append sep [] ys h = ground arith
after-append sep (x ∷ xs) ys h = ground (arith, after-append sep xs ys h.1, h.0)

module _ (query : QueryText) where
  -- The values of the two fields in the query of a URL.
  abbrev pub fields_of : Bytes → Bytes × Bytes
  fields_of url =
      let fields = after b'?' url in
      (
        query.unescape (after b'=' (before b'&' fields)),
        query.unescape (after b'=' (after b'&' fields)),
      )

  url_tail : Bytes → Bytes → Bytes
  url_tail token public =
      codes "pt=" ++ (query.escape token ++ (b'&' ∷ (codes "pubkey=" ++ query.escape public)))

  skip : (xs ys : Bytes) → All (λ c. c ≢ b'?') xs → after b'?' (xs ++ ys) ≡ after b'?' ys
  skip [] ys h = refl
  skip (x ∷ xs) ys h = ground (arith, skip xs ys h.1, h.0)

  add_key_url-tail :
      (server : ServerEndpoint) (token public : Bytes)
      → All (λ c. c ≢ b'?') server.ip
      → after b'?' (add_key_url query server token public) ≡ url_tail token public
  unfolding add_key_url url_tail
  add_key_url-tail server token public h =
      skip server.ip _ h
      ∙ skip (itoa server.port) _
          (itoa-All (λ c. c ≢ b'?') (λ d l e. omega arith) (λ e. omega arith) server.port)

  url_tail-before :
      (token public : Bytes)
      → before b'&' (url_tail token public) ≡ codes "pt=" ++ query.escape token
  unfolding url_tail
  url_tail-before token public =
      before-append b'&' (codes "pt=" ++ query.escape token)
        (codes "pubkey=" ++ query.escape public)
        (
          (λ e. omega arith),
          ((λ e. omega arith), ((λ e. omega arith), query.escape-no_ampersand token)),
        )

  url_tail-after :
      (token public : Bytes)
      → after b'&' (url_tail token public) ≡ codes "pubkey=" ++ query.escape public
  unfolding url_tail
  url_tail-after token public =
      after-append b'&' (codes "pt=" ++ query.escape token) (codes "pubkey=" ++ query.escape public)
        (
          (λ e. omega arith),
          ((λ e. omega arith), ((λ e. omega arith), query.escape-no_ampersand token)),
        )

  pub fields_of-add_key_url :
      (server : ServerEndpoint) (token public : Bytes)
      → All (λ c. c ≢ b'?') server.ip
      → fields_of (add_key_url query server token public) ≡ (token, public)
  fields_of-add_key_url server token public h =
      rw
        (
          add_key_url-tail server token public h,
          url_tail-before token public,
          url_tail-after token public,
          query.unescape-escape token,
          query.unescape-escape public,
        )
        refl
