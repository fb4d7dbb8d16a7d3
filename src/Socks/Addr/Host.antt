-- ===== src/Socks/Addr/Host.antt =====
-- The host part of an address: the bytes that parseSocksAddr reads and marshal writes for it.
use piaproxy.Base.{
  All-append_left, ==_iff, get_or, ℕ, zero, suc, ◌+◌, ◌<◌, ◌==◌, ◌≡◌, refl, inl, inr, true, some,
  [], ◌∷◌, ◌++◌, length, take, drop, str_eq, All, IsByte, Bytes, arith, Option-cases, Bool-cases,
}
use piaproxy.Base.Result.{ok}
use piaproxy.Net.{IpText, to4, to16, v4_in_v6_prefix}
use piaproxy.Socks.Wire.{
  SocksAddr, ipv4, domain_name, ipv6, SocksError, ipv4_unread, ipv6_unread, name_size_unread,
  name_unread,
}
use piaproxy.Socks.Reader.{read, pure, ◌>>=◌, read_full, read_full-append}
use piaproxy.Socks.Addr.{read_destination, marshal_host}

-- `read_full` splits the stream after `n` bytes.
pub read_full-eq-some :
    (n : ℕ) (r : Bytes) {bs rest : Bytes}
    → read_full n r ≡ some (bs, rest)
    → (r ≡ bs ++ rest) × (length bs ≡ n)
unfolding read_full
read_full-eq-some zero r e = ground arith
read_full-eq-some (suc n) [] e = cc
read_full-eq-some (suc n) (b ∷ r) e = elim (Option-cases (read_full n r)) [
  | inl h ↦ ground arith
  | inr ((xs, ys), h) ↦ ground (arith, read_full-eq-some n r {bs = xs} {rest = ys} h)
]

prefix_test : (ip : Bytes) → str_eq (take 12 (v4_in_v6_prefix ++ ip)) v4_in_v6_prefix ≡ true
unfolding str_eq
prefix_test ip = refl

prefix_length : (ip : Bytes) → length (v4_in_v6_prefix ++ ip) ≡ length ip + 12
prefix_length ip = omega arith

drop_prefix : (ip : Bytes) → drop 12 (v4_in_v6_prefix ++ ip) ≡ ip
drop_prefix ip = refl

pub two_bytes : (ps : Bytes) → length ps ≡ 2 → (p : ℕ) × (q : ℕ) × (ps ≡ p ∷ q ∷ [])
two_bytes [] h = absurd (omega arith)
two_bytes (p ∷ []) h = absurd (omega arith)
two_bytes (p ∷ q ∷ []) h = (p, q, refl)
two_bytes (p ∷ q ∷ x ∷ ps) h = absurd (omega arith)

to4-prefix : (ip : Bytes) → length ip ≡ 4 → to4 (v4_in_v6_prefix ++ ip) ≡ some ip
unfolding to4
to4-prefix ip h = ground (arith, prefix_test ip, prefix_length ip, drop_prefix ip)

to16_of_length : (ip : Bytes) → length ip ≡ 16 → to16 ip ≡ some ip
unfolding to16
to16_of_length ip h = ground arith

-- The host part is one that parseSocksAddr can return for its type.
pub data IsHost (net : IpText) (t : ℕ) (addr : Bytes) : Type 0 where
  v4 :
      (ip : Bytes)
      → t ≡ ipv4
      → length ip ≡ 4
      → All IsByte ip
      → addr ≡ net.ip_string ip
      → IsHost net t addr
  name : t ≡ domain_name → length addr < 256 → IsHost net t addr
  v6 :
      (ip : Bytes)
      → t ≡ ipv6
      → length ip ≡ 16
      → All IsByte ip
      → addr ≡ net.ip_string ip
      → IsHost net t addr

pub record IsCanonical (net : IpText) (a : SocksAddr) : Type 0 where
  pub host : IsHost net a.addr_type a.addr
  pub port_fits : a.port < 65536

module _ (net : IpText) where
  open net use {ip_string, parse_ip-ip_string4, parse_ip-ip_string16}

  -- The bytes that stand for a host: what marshal writes and parseSocksAddr reads.
  unfoldable pub host_bytes : {t : ℕ} {addr : Bytes} → IsHost net t addr → Bytes
  host_bytes (v4 ip _ _ _ _) = ip
  host_bytes {addr} (name _ _) = length addr ∷ addr
  host_bytes (v6 ip _ _ _ _) = ip

  pub marshal_host-host_bytes :
      (a : SocksAddr) (h : IsHost net a.addr_type a.addr) → marshal_host net a ≡ ok (host_bytes h)
  unfolding marshal_host host_bytes
  marshal_host-host_bytes a (v4 ip t l b e) =
      ground (arith, parse_ip-ip_string4 ip l b, to4-prefix ip l)
  marshal_host-host_bytes a (name t l) = ground arith
  marshal_host-host_bytes a (v6 ip t l b e) =
      ground (arith, parse_ip-ip_string16 ip l b, to16_of_length ip l)

  pub read_destination-host_bytes :
      (a : SocksAddr) (h : IsHost net a.addr_type a.addr) (rest : Bytes)
      → read_destination net a.addr_type (host_bytes h ++ rest) ≡ (ok a.addr, rest)
  unfolding read_destination host_bytes read_full
  read_destination-host_bytes a (v4 ip t l b e) rest = ground (arith, read_full-append ip rest)
  read_destination-host_bytes a (name t l) rest = ground (arith, read_full-append a.addr rest)
  read_destination-host_bytes a (v6 ip t l b e) rest = ground (arith, read_full-append ip rest)

  read_ip :
      (n : ℕ) (e : SocksError) (r rest : Bytes) (addr : Bytes)
      → All IsByte r
      → (read n e >>= λ ip. pure (ip_string ip)) r ≡ (ok addr, rest)
      → (ip : Bytes) × (length ip ≡ n) × All IsByte ip × (addr ≡ ip_string ip) × (r ≡ ip ++ rest)
  read_ip n e r rest addr b h = elim (Option-cases (read_full n r)) [
    | inl f ↦ absurd (ground arith)
    | inr ((ip, left), f) ↦
        let (split, l) = read_full-eq-some n r {bs = ip} {rest = left} f in
        (ip, l, All-append_left IsByte ip left (rw split at b), ground arith, ground arith)
  ]

  read_name :
      (r rest : Bytes) (addr : Bytes)
      → All IsByte r
      → (read 1 name_size_unread >>= λ size. read (get_or size 0 0) name_unread) r ≡ (ok addr, rest)
      → (length addr < 256) × (r ≡ length addr ∷ (addr ++ rest))
  unfolding read_full
  read_name [] rest addr b h = ground arith
  read_name (n ∷ r) rest addr b h = elim (Option-cases (read_full n r)) [
    | inl f ↦ absurd (ground arith)
    | inr ((xs, left), f) ↦ ground (arith, read_full-eq-some n r {bs = xs} {rest = left} f, b.0)
  ]

  pub read_destination-IsHost :
      (t : ℕ) (r rest : Bytes) (addr : Bytes)
      → All IsByte r
      → read_destination net t r ≡ (ok addr, rest)
      → (h : IsHost net t addr) × (r ≡ host_bytes h ++ rest)
  unfolding read_destination host_bytes
  read_destination-IsHost t r rest addr b e = elim (Bool-cases (t == ipv4)) [
    | inl y ↦
        let (ip, l, bs, a, s) =
          read_ip 4 ipv4_unread r rest addr b (rw (y, read_destination) at e) in
        (v4 ip ((==_iff t ipv4).0 y) l bs a, s)
    | inr n4 ↦ elim (Bool-cases (t == domain_name)) [
      | inl y ↦
          let (l, s) = read_name r rest addr b (rw (n4, y, read_destination) at e) in
          (name ((==_iff t domain_name).0 y) l, s)
      | inr nd ↦ elim (Bool-cases (t == ipv6)) [
        | inl y ↦
            let (ip, l, bs, a, s) =
              read_ip 16 ipv6_unread r rest addr b (rw (n4, nd, y, read_destination) at e) in
            (v6 ip ((==_iff t ipv6).0 y) l bs a, s)
        | inr n6 ↦ absurd (ground arith)
      ]
    ]
  ]
