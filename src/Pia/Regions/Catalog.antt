-- ===== src/Pia/Regions/Catalog.antt =====
-- The list that an answer of the server list decodes to.
use piaproxy.Base.{
  ◌==◌, ◌≤◌, ◌<◌, ◌≡◌, ◌≢◌, refl, inl, inr, ap, false, some, List, [], ◌∷◌, ◌++◌, arith, All, map,
  Bytes, contains, Option-cases, Bool-cases,
}
use piaproxy.Base.Int.{ℤ, negsuc}
use piaproxy.Base.Result.{ok}
use piaproxy.Pia.Http.{HttpReply}
use piaproxy.Pia.Regions.{
  ListText, Root, Region, RawRegion, first_line, wireguard_port, WireServer, region_of, endpoint_of,
  fetch_server_list,
}
use piaproxy.Pia.Regions.Ports.{IsPort, wireguard_port-IsPort}

-- The line is what stands before the first newline.
first_line-eq-some :
    (body line : Bytes)
    → first_line body ≡ some line
    → (rest : Bytes) × (body ≡ line ++ b'\n' ∷ rest) × (contains b'\n' line ≡ false)
unfolding first_line contains
first_line-eq-some [] line e = absurd (ground arith)
first_line-eq-some (b ∷ bs) line e = elim (Bool-cases (b == b'\n')) [
  | inl newline ↦ (bs, ground arith, ground arith)
  | inr other ↦ elim (Option-cases (first_line bs)) [
    | inl f ↦ absurd (ground arith)
    | inr (l, f) ↦
        let (rest, split, clean) = first_line-eq-some bs l f in (rest, ground arith, ground arith)
  ]
]

module _ (text : ListText) where
  -- Every server of a region has the one port.
  map_port :
      (port : ℤ) (rs : List RawRegion)
      → All (λ r. All (λ s. s.port ≡ port) r.wireguard_servers) (map (region_of text port) rs)
  map_port port [] = tt
  map_port port (r ∷ rs) = (servers r.servers, map_port port rs)
    where
      servers : (ss : List WireServer) → All (λ s. s.port ≡ port) (map (endpoint_of text port) ss)
      servers [] = tt
      servers (s ∷ ss) = (refl, servers ss)

  map_ids :
      (port : ℤ) (rs : List RawRegion)
      → map (λ r. r.id) (map (region_of text port) rs) ≡ map (λ r. r.id) rs
  map_ids port [] = refl
  map_ids port (r ∷ rs) = ap (◌∷◌ r.id) (map_ids port rs)

  -- The list is that of the JSON document in the first line of a successful answer: its regions in
  -- order, and one WireGuard port for all servers.
  pub record Listed (r : HttpReply) (regions : List Region) : Type 0 where
    pub status_ok : (200 ≤ r.status_code) × (r.status_code < 300)
    pub line : Bytes
    pub signature : Bytes
    pub splits : r.body ≡ line ++ b'\n' ∷ signature
    pub one_line : contains b'\n' line ≡ false
    pub root : Root
    pub decoded : text.decode_root line ≡ some root
    pub ids : map (λ x. x.id) regions ≡ map (λ x. x.id) root.regions
    pub port : ℤ
    pub is_port : IsPort text root.groups port
    pub same_port : All (λ x. All (λ s. s.port ≡ port) x.wireguard_servers) regions

  -- fetchServerList returns a list only for a 2xx answer whose first line, ended by a newline,
  -- decodes to a document with these region IDs in order, and every server has the first port of
  -- the first group that is named WireGuard and has a port.
  pub fetch_server_list-Listed :
      (r : HttpReply) (regions : List Region)
      → fetch_server_list text (ok r) ≡ ok regions
      → Listed r regions
  unfolding fetch_server_list
  fetch_server_list-Listed r regions e = elim (Option-cases (first_line r.body)) [
    | inl f ↦ absurd (ground arith)
    | inr (line, f) ↦ elim (Option-cases (text.decode_root line)) [
      | inl g ↦ absurd (ground arith)
      | inr (root, g) ↦
          let port = wireguard_port text root.groups in
          let (signature, split, one) = first_line-eq-some r.body line f in
          let same : regions ≡ map (region_of text port) root.regions = ground arith in
          let there : port ≢ negsuc 0 = ground arith in
          rw same (record {
            status_ok = ground arith;
            line = line;
            signature = signature;
            splits = split;
            one_line = one;
            root = root;
            decoded = g;
            ids = map_ids port root.regions;
            port = port;
            is_port = wireguard_port-IsPort text root.groups there;
            same_port = map_port port root.regions;
          })
    ]
  ]
