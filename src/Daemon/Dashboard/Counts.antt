-- ===== src/Daemon/Dashboard/Counts.antt =====
-- What the dashboard is told about the proxies.
use mathlib.Core.List.{Permᴰ, append-nil, append_assoc}
use piaproxy.Base.{
  ℕ, suc, ◌+◌, ◌≤◌, ◌≡◌, refl, sym, ap, ◌∙◌, Bool, true, false, ◌&&◌, Option, none, some, List, [],
  ◌∷◌, ◌++◌, map, if◌then◌else◌, Bytes, codes, length, arith, All, Bool-cases, inl, inr,
}
use piaproxy.Net.{IpText}
use piaproxy.Pia.Client.{PiaClient}
use piaproxy.Tunnel.{Floats}
use piaproxy.Tunnel.Status as TunnelView
use piaproxy.Socks.Listener
use piaproxy.Proxy.Status.{Status, Moments, snapshot, show_tunnel, empty_status}
use piaproxy.Proxy.Status.Parts.{show_listener-Keeps}
use piaproxy.Daemon.Dashboard.{str_lt, by_city, is_up, no_store, ApiPayload, collect, handle_api}

module _ {A : Type 0} (less : A → A → Bool) where
  -- No element comes after one that it is less than.
  abbrev pub Ordered : List A → Type 0
  Ordered [] = Unit {0}
  Ordered (x ∷ xs) = All (λ y. less y x ≡ false) xs × Ordered xs

  -- A strict weak order, for which sort.Slice promises its result.
  pub record IsOrdering : Type 0 where
    pub asym : (x y : A) → less x y ≡ true → less y x ≡ false
    pub chain : (x y z : A) → less x y ≡ false → less y z ≡ false → less x z ≡ false

-- sort.Slice rearranges the slice, and by a strict weak order it sorts it.
abbrev pub Sorts : {A : Type 0} → ((A → A → Bool) → List A → List A) → Type 0
Sorts {A} sort =
    (less : A → A → Bool) (xs : List A)
    → IsOrdering less
    → Permᴰ xs (sort less xs) × Ordered less (sort less xs)

str_lt_asym : (a b : Bytes) → str_lt a b ≡ true → str_lt b a ≡ false
unfolding str_lt
str_lt_asym [] [] h = refl
str_lt_asym [] (y ∷ b) h = refl
str_lt_asym (x ∷ a) [] h = absurd (ground arith)
str_lt_asym (x ∷ a) (y ∷ b) h = ground (arith, str_lt_asym a b)

str_lt_chain : (a b c : Bytes) → str_lt a b ≡ false → str_lt b c ≡ false → str_lt a c ≡ false
unfolding str_lt
str_lt_chain [] [] c h k = k
str_lt_chain [] (y ∷ b) c h k = absurd (ground arith)
str_lt_chain (x ∷ a) [] [] h k = refl
str_lt_chain (x ∷ a) [] (z ∷ c) h k = absurd (ground arith)
str_lt_chain (x ∷ a) (y ∷ b) [] h k = refl
str_lt_chain (x ∷ a) (y ∷ b) (z ∷ c) h k = ground (arith, str_lt_chain a b c)

by_city-IsOrdering : {F : Type 0} → IsOrdering (by_city {F = F})
by_city-IsOrdering = record {
  asym = λ x y. str_lt_asym x.city y.city;
  chain = λ x y z. str_lt_chain x.city y.city z.city;
}

-- How many elements pass a test.
abbrev pub count_if : {A : Type 0} → (A → Bool) → List A → ℕ
count_if p [] = 0
count_if p (x ∷ xs) = (if p x then 1 else 0) + count_if p xs

count_if-perm :
    {A : Type 0} (p : A → Bool) {xs ys : List A} → Permᴰ xs ys → count_if p xs ≡ count_if p ys
count_if-perm p Permᴰ.nil = refl
count_if-perm p (Permᴰ.cons e d) = rw e (omega (arith, count_if-perm p d))
count_if-perm p (Permᴰ.swap e f) = rw (e, f) (omega arith)
count_if-perm p (Permᴰ.trans c d) = count_if-perm p c ∙ count_if-perm p d

length-perm : {A : Type 0} {xs ys : List A} → Permᴰ xs ys → length xs ≡ length ys
length-perm Permᴰ.nil = refl
length-perm (Permᴰ.cons e d) = ap suc (length-perm d)
length-perm (Permᴰ.swap e f) = refl
length-perm (Permᴰ.trans c d) = length-perm c ∙ length-perm d

count_if-le : {A : Type 0} (p : A → Bool) (xs : List A) → count_if p xs ≤ length xs
count_if-le p [] = omega arith
count_if-le p (x ∷ xs) = ground (arith, count_if-le p xs)

module _ {F : Type 0} (floats : Floats F) (net : IpText) (pia : Option PiaClient) where
  abbrev pub snap : ℕ × Moments F → Status F
  snap (now, p) = snapshot floats net now pia p

  -- The proxy runs, and its tunnel is in the state up.
  abbrev pub runs_up : ℕ × Moments F → Bool
  runs_up (now, p) = p.fields.attached && is_up p.tunnel.tunnel.tunnel.state

  view-state :
      (now : ℕ) (o : Option PiaClient) (p : Moments F)
      → (TunnelView.snapshot net now o p.tunnel.tunnel.tunnel).state ≡ p.tunnel.tunnel.tunnel.state
  unfolding TunnelView.snapshot
  view-state now none p = ground arith
  view-state now (some client) p = ground arith

  snap-is_up : (now : ℕ) (p : Moments F) → is_up (snap (now, p)).state ≡ runs_up (now, p)
  unfolding snapshot
  snap-is_up now p = elim (Bool-cases p.fields.attached) [
    | inl on ↦ rw on (
        ap is_up (
          (show_listener-Keeps (Listener.snapshot p.listener.listener) (
            show_tunnel (TunnelView.snapshot net now pia p.tunnel.tunnel.tunnel)
              (empty_status floats p.fields.cfg))).2
          ∙ view-state now pia p))
    | inr off ↦ rw off refl
  ]

  collect_lem :
      (ps : List (ℕ × Moments F)) (snaps : List (Status F)) (n : ℕ)
      → collect floats net pia ps snaps n ≡ (snaps ++ map snap ps, n + count_if runs_up ps)
  unfolding collect
  collect_lem [] snaps n = ground (arith, append-nil snaps)
  collect_lem ((now, p) ∷ ps) snaps n =
      collect_lem ps (snaps ++ snap (now, p) ∷ [])
        (if is_up (snap (now, p)).state then n + 1 else n)
      ∙ more
    where
      counted :
          (if is_up (snap (now, p)).state then n + 1 else n) + count_if runs_up ps
          ≡ n + ((if runs_up (now, p) then 1 else 0) + count_if runs_up ps)
      counted = rw (snap-is_up now p) (ground arith)

      more :
          ◌≡◌ {A = List (Status F) × ℕ}
            (
              (snaps ++ snap (now, p) ∷ []) ++ map snap ps,
              (if is_up (snap (now, p)).state then n + 1 else n) + count_if runs_up ps,
            )
            (snaps ++ map snap ((now, p) ∷ ps), n + count_if runs_up ((now, p) ∷ ps))
      more = λ i. (append_assoc snaps (snap (now, p) ∷ []) (map snap ps) i, counted i)

  -- How the payload agrees with the proxies.
  pub record Agrees (proxies : List (ℕ × Moments F)) (a : ApiPayload F) : Type 0 where
    pub all_shown : Permᴰ (map snap proxies) a.proxies
    pub ordered : Ordered by_city a.proxies
    pub proxy_count : (a.proxy_count ≡ length proxies) × (a.proxy_count ≡ length a.proxies)
    pub up_count : a.up_count ≡ count_if runs_up proxies
    pub up_shown : a.up_count ≡ count_if (λ s. is_up s.state) a.proxies
    pub bounded : a.up_count ≤ a.proxy_count

  length-snaps : (ps : List (ℕ × Moments F)) → length (map snap ps) ≡ length ps
  length-snaps [] = refl
  length-snaps (p ∷ ps) = ap suc (length-snaps ps)

  count-snaps :
      (ps : List (ℕ × Moments F))
      → count_if (λ (s : Status F). is_up s.state) (map snap ps) ≡ count_if runs_up ps
  count-snaps [] = refl
  count-snaps ((now, p) ∷ ps) = rw (snap-is_up now p, count-snaps ps) refl

  -- If sort.Slice sorts by every strict weak order, the payload of the dashboard lists the
  -- statuses of all proxies, each as often as there are such proxies, ordered by city, its proxy
  -- count is their number, and its up count is the number of proxies that had a tunnel in the
  -- state up, and that of the listed statuses in this state.
  pub handle_api-Agrees :
      (sort : (Status F → Status F → Bool) → List (Status F) → List (Status F))
      → Sorts sort
      → (started now : ℕ) (proxies : List (ℕ × Moments F))
      → (a : ApiPayload F) × (handle_api sort floats net pia started now proxies
          ≡ no_store (codes "application/json; charset=utf-8") a)
        × Agrees proxies a
  unfolding handle_api
  handle_api-Agrees sort sorts started now proxies =
      let (perm, ordered) = sorts by_city (map snap proxies) by_city-IsOrdering in
      rw (collect_lem proxies [] 0) (
        _,
        refl,
        record {
          all_shown = perm;
          ordered = ordered;
          proxy_count = (length-snaps proxies, length-perm perm);
          up_count = omega arith;
          up_shown =
              (omega arith) ∙ sym (count-snaps proxies) ∙ count_if-perm (λ s. is_up s.state) perm;
          bounded = omega (arith, count_if-le runs_up proxies, length-snaps proxies);
        },
      )
