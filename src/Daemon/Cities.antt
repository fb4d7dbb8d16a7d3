-- ===== src/Daemon/Cities.antt =====
-- The listen addresses of the cities.
use piaproxy.Base.{
  ℕ, ◌+◌, ◌^◌, ◌<◌, ◌≡◌, ◌≢◌, refl, ap, inl, inr, true, false, none, List, [], ◌∷◌, ◌++◌, arith,
  All, length, Bytes, str_eq, str_eq_iff, Bool-cases, if-cases,
}
use piaproxy.Base.Int.{pos, ◌+ℤ◌}
use piaproxy.Net.{join_host_port}
use piaproxy.Net.Decimal.{itoa, atoi-itoa}
use piaproxy.Pia.Regions.{Region}
use piaproxy.Tunnel.{CityConfig}
use piaproxy.Daemon.{
  NameText, Entry, default_cities, split_on, read_entries, listen_at, configure, number_cities,
  build_city_list, is_known, filter_unknown_regions,
}

append-cancel : (xs : Bytes) (ys zs : Bytes) → xs ++ ys ≡ xs ++ zs → ys ≡ zs
append-cancel [] ys zs e = e
append-cancel (x ∷ xs) ys zs e = append-cancel xs ys zs (ground arith)

itoa-injective : (m n : ℕ) → m < 2 ^ 63 → n < 2 ^ 63 → itoa (pos m) ≡ itoa (pos n) → m ≡ n
itoa-injective m n h k e = ground (arith, atoi-itoa m h, atoi-itoa n k)

join_host_port-injective :
    (host p q : Bytes) → join_host_port host p ≡ join_host_port host q → p ≡ q
unfolding join_host_port
join_host_port-injective host p q e = ground (
  arith,
  append-cancel host (b']' ∷ b':' ∷ p) (b']' ∷ b':' ∷ q),
  append-cancel host (b':' ∷ p) (b':' ∷ q),
)

-- The address is none of those that the cities listen on.
abbrev pub Apart : Bytes → List CityConfig → Type 0
Apart addr cs = All (λ c. addr ≢ c.listen) cs

-- No two cities listen on the same address.
abbrev pub Distinct : List CityConfig → Type 0
Distinct [] = Unit {0}
Distinct (c ∷ cs) = Apart c.listen cs × Distinct cs

plus_pos : (b i : ℕ) → pos b +ℤ pos i ≡ pos (b + i)
unfolding ◌+ℤ◌
plus_pos b i = ground arith

module _ (text : NameText) (bind_addr : Bytes) (b : ℕ) where
  listen_at-apart :
      (i j : ℕ)
      → i < j
      → b + j < 2 ^ 63
      → listen_at bind_addr (pos b +ℤ pos i) ≢ listen_at bind_addr (pos b +ℤ pos j)
  listen_at-apart i j l h e =
      let same : itoa (pos (b + i)) ≡ itoa (pos (b + j)) =
        (rw (← plus_pos b i, ← plus_pos b j)
          (join_host_port-injective bind_addr (itoa (pos b +ℤ pos i)) (itoa (pos b +ℤ pos j)) e)) in
      let equal = itoa-injective (b + i) (b + j) (omega arith) h same in omega arith

  number_cities-Apart :
      (i j : ℕ) (cs : List CityConfig)
      → i < j
      → b + j + length cs < 2 ^ 63
      → Apart (listen_at bind_addr (pos b +ℤ pos i)) (number_cities bind_addr (pos b) j cs)
  unfolding number_cities
  number_cities-Apart i j [] l h = tt
  number_cities-Apart i j (c ∷ cs) l h = (
    listen_at-apart i j l (omega arith),
    number_cities-Apart i (j + 1) cs (omega arith) (omega arith),
  )

  number_cities-Distinct :
      (i : ℕ) (cs : List CityConfig)
      → b + i + length cs < 2 ^ 63
      → Distinct (number_cities bind_addr (pos b) i cs)
  unfolding number_cities
  number_cities-Distinct i [] h = tt
  number_cities-Distinct i (c ∷ cs) h = (
    number_cities-Apart i (i + 1) cs (omega arith) (omega arith),
    number_cities-Distinct (i + 1) cs (omega arith),
  )

  configure-Apart :
      (i j : ℕ) (es : List Entry)
      → i < j
      → b + j + length es < 2 ^ 63
      → All (λ e. e.port ≡ none) es
      → Apart (listen_at bind_addr (pos b +ℤ pos i)) (configure bind_addr (pos b) j es)
  unfolding configure
  configure-Apart i j [] l h p = tt
  configure-Apart i j (e ∷ es) l h p = (
    rw p.0 (listen_at-apart i j l (omega arith)),
    configure-Apart i (j + 1) es (omega arith) (omega arith) p.1,
  )

  configure-Distinct :
      (i : ℕ) (es : List Entry)
      → b + i + length es < 2 ^ 63
      → All (λ e. e.port ≡ none) es
      → Distinct (configure bind_addr (pos b) i es)
  unfolding configure
  configure-Distinct i [] h p = tt
  configure-Distinct i (e ∷ es) h p = (
    rw p.0 (configure-Apart i (i + 1) es (omega arith) (omega arith) p.1),
    configure-Distinct (i + 1) es (omega arith) p.1,
  )

  -- On a base port that is not negative, with ports in the range of an int, no two cities of the
  -- daemon listen on the same address, if no entry of PIA_REGIONS has a port of its own.
  pub build_city_list-Distinct :
      (raw : Bytes)
      → All (λ e. e.port ≡ none) (read_entries text (split_on b',' raw))
      → b + length (read_entries text (split_on b',' raw)) < 2 ^ 63
      → b + 21 < 2 ^ 63
      → Distinct (build_city_list text bind_addr (pos b) raw)
  unfolding build_city_list
  build_city_list-Distinct raw p h k =
      if-cases Distinct (str_eq raw []) (λ _. number_cities-Distinct 0 default_cities (omega arith))
        (λ _. configure-Distinct 0 (read_entries text (split_on b',' raw)) (omega arith) p)

module _ (text : NameText) where
  -- What was kept of the cities, in order: those with a region that is in the list up to case.
  pub data Filtered (regions : List Region) : List CityConfig → List CityConfig → Type 0 where
    filtered_none : Filtered regions [] []
    kept :
        (c : CityConfig) (cs out : List CityConfig) (before after : List Region) (r : Region)
        → regions ≡ before ++ r ∷ after
        → text.to_lower r.id ≡ text.to_lower c.region
        → Filtered regions cs out
        → Filtered regions (c ∷ cs) (c ∷ out)
    dropped :
        (c : CityConfig) (cs out : List CityConfig)
        → All (λ r. text.to_lower r.id ≢ text.to_lower c.region) regions
        → Filtered regions cs out
        → Filtered regions (c ∷ cs) out

  is_known-split :
      (regions : List Region) (region : Bytes)
      → is_known text regions region ≡ true
      → (before after : List Region) × (r : Region) × (regions ≡ before ++ r ∷ after)
        × (text.to_lower r.id ≡ text.to_lower region)
  unfolding is_known
  is_known-split [] region e = absurd (ground arith)
  is_known-split (x ∷ rs) region e =
      elim (Bool-cases (str_eq (text.to_lower x.id) (text.to_lower region))) [
        | inl hit ↦
            ([], rs, x, refl, (str_eq_iff (text.to_lower x.id) (text.to_lower region)).0 hit)
        | inr miss ↦
            let (before, after, r, split, same) = is_known-split rs region (ground arith) in
            (x ∷ before, after, r, ap (◌∷◌ x) split, same)
      ]

  is_known-none :
      (regions : List Region) (region : Bytes)
      → is_known text regions region ≡ false
      → All (λ r. text.to_lower r.id ≢ text.to_lower region) regions
  unfolding is_known
  is_known-none [] region e = tt
  is_known-none (x ∷ rs) region e = (
    (λ same. ground (arith, (str_eq_iff (text.to_lower x.id) (text.to_lower region)).1 same)),
    is_known-none rs region (ground arith),
  )

  -- filterUnknownRegions keeps, in order, exactly the cities whose region is the ID of one in the
  -- list, up to case.
  pub filter_unknown_regions-Filtered :
      (cities : List CityConfig) (regions : List Region)
      → Filtered regions cities (filter_unknown_regions text cities regions)
  unfolding filter_unknown_regions
  filter_unknown_regions-Filtered [] regions = filtered_none
  filter_unknown_regions-Filtered (c ∷ cs) regions =
      let rest = filter_unknown_regions-Filtered cs regions in
      if-cases (Filtered regions (c ∷ cs)) (is_known text regions c.region)
        (λ hit.
          let (before, after, r, split, same) = is_known-split regions c.region hit in
          kept c cs _ before after r split same rest)
        (λ miss. dropped c cs _ (is_known-none regions c.region miss) rest)
