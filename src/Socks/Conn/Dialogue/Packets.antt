-- ===== src/Socks/Conn/Dialogue/Packets.antt =====
-- The packets that a connection writes, as the client reads them.
use piaproxy.Base.{
  ℕ, zero, suc, ◌-◌, ◌+◌, ◌<◌, ◌≡◌, refl, sym, ◌∙◌, ap, inl, inr, none, some, [], ◌∷◌, ◌++◌, arith,
  ltb, drop, length, length-append, Bytes, Bool-cases, Option-cases,
}
use piaproxy.Net.{IpText, to4}
use piaproxy.Socks.Addr.{get_addr_type, big_endian}
use piaproxy.Socks.State.{Env}
use piaproxy.Socks.Conn.{success_bytes}
use piaproxy.Socks.Conn.Replies.{
  failure, bound_host, bound_code, success_bytes_lem, success_bytes-long,
}
use piaproxy.Socks.Conn.Dialogue.{replied, skip-append, after_address, read_reply}

pub read_reply-failure :
    (code : ℕ) (rest : Bytes) → read_reply (failure code ++ rest) ≡ some (replied code rest)
unfolding read_reply after_address
read_reply-failure code rest = rw (skip-append 6 (0 ∷ 0 ∷ 0 ∷ 0 ∷ 0 ∷ 0 ∷ []) rest refl) refl

length-drop : (n : ℕ) (xs : Bytes) → length (drop n xs) ≡ length xs - n
length-drop zero xs = omega arith
length-drop (suc n) [] = omega arith
length-drop (suc n) (x ∷ xs) = omega (arith, length-drop n xs)

to4-length : (ip v4 : Bytes) → to4 ip ≡ some v4 → length v4 ≡ 4
unfolding to4
to4-length ip v4 e = ground (arith, length-drop 12 ip)

module _ (net : IpText) where
  after_address-bound :
      (host port rest : Bytes)
      → length port ≡ 2
      → after_address (get_addr_type net host) ((bound_host net host ++ port) ++ rest) ≡ some rest
  unfolding after_address get_addr_type
  after_address-bound host port rest h = elim (Option-cases (net.parse_ip host)) [
    | inl e ↦ ground (
      arith,
      skip-append (length host + 2) (host ++ port) rest
          (length-append host port ∙ ap (λ n. length host + n) h),
    )
    | inr (ip, e) ↦ elim (Option-cases (to4 ip)) [
      | inl f ↦ ground (
        arith,
        skip-append 18 (ip ++ port) rest
            (omega (arith, length-append ip port, net.parse_ip-length host ip e)),
      )
      | inr (v4, f) ↦ ground (
        arith,
        skip-append 6 (v4 ++ port) rest (omega (arith, length-append v4 port, to4-length ip v4 f)),
      )
    ]
  ]

  read_reply-bound :
      (host port rest : Bytes)
      → length port ≡ 2
      → read_reply ((5 ∷ 0 ∷ 0 ∷ get_addr_type net host ∷ (bound_host net host ++ port)) ++ rest)
        ≡ some (replied 0 rest)
  unfolding read_reply
  read_reply-bound host port rest h = rw (after_address-bound host port rest h)

module _ (env : Env) where
  -- The reply that names the bound address, whole and read by the client.
  pub read_reply-success :
      (host : Bytes) (port : ℕ) (rest : Bytes)
      → read_reply (success_bytes env host port ++ rest)
        ≡ some (replied (bound_code env.net host) rest)
  read_reply-success host port rest = elim (Option-cases (env.net.parse_ip host)) [
    | inr (ip, e) ↦ fitting (ground arith)
    | inl e ↦ elim (Bool-cases (ltb 255 (length host))) [
      | inl long ↦ failing e (ground arith) (ground arith)
      | inr short ↦ fitting (ground arith)
    ]
  ]
    where
      failing :
          env.net.parse_ip host ≡ none
          → 255 < length host
          → bound_code env.net host ≡ 1
          → read_reply (success_bytes env host port ++ rest)
            ≡ some (replied (bound_code env.net host) rest)
      failing e long h =
          ap (λ bs. read_reply (bs ++ rest)) (success_bytes-long env host port e long)
          ∙ read_reply-failure 1 rest
          ∙ ap (λ c. some (replied c rest)) (sym h)

      fitting :
          bound_code env.net host ≡ 0
          → read_reply (success_bytes env host port ++ rest)
            ≡ some (replied (bound_code env.net host) rest)
      fitting h =
          ap (λ bs. read_reply (bs ++ rest)) (success_bytes_lem env host port h)
          ∙ read_reply-bound env.net host (big_endian port) rest refl
          ∙ ap (λ c. some (replied c rest)) (sym h)
