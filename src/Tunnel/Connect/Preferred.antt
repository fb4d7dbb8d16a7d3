-- ===== src/Tunnel/Connect/Preferred.antt =====
-- The choice of the preferred server.
use piaproxy.Base.{
  ◌≡◌, refl, Bool, true, false, not, ◌&&◌, Option, none, some, List, [], ◌∷◌, ◌++◌, if◌then◌else◌,
  arith, All, str_eq, str_eq_iff, ap, if-cases,
}
use piaproxy.Pia.Regions.{ListText, ServerEndpoint, Region}
use piaproxy.Tunnel.{CityConfig}
use piaproxy.Tunnel.Connect.{preferred_server_in_region, search_preferred}

module _ (text : ListText) where
  -- The server has the preferred CN up to case, or the preferred address if no CN is preferred.
  abbrev pub is_wanted : ServerEndpoint → ServerEndpoint → Bool
  is_wanted pref s =
      if str_eq pref.cn []
      then not (str_eq pref.ip []) && str_eq s.ip pref.ip
      else text.equal_fold s.cn pref.cn

  pub record FirstWanted (pref : ServerEndpoint) (servers : List ServerEndpoint)
      (s : ServerEndpoint) : Type 0 where
    pub before : List ServerEndpoint
    pub after : List ServerEndpoint
    pub splits : servers ≡ before ++ s ∷ after
    pub wanted : is_wanted pref s ≡ true
    pub skipped : All (λ x. is_wanted pref x ≡ false) before

  -- What the choice returned is right.
  abbrev pub Chosen : ServerEndpoint → List ServerEndpoint → Option ServerEndpoint → Type 0
  Chosen pref servers none = All (λ x. is_wanted pref x ≡ false) servers
  Chosen pref servers (some s) = FirstWanted pref servers s

  Chosen-none :
      (pref : ServerEndpoint) (servers : List ServerEndpoint)
      → pref.cn ≡ []
      → pref.ip ≡ []
      → Chosen pref servers none
  unfolding str_eq
  Chosen-none pref [] c i = tt
  Chosen-none pref (x ∷ rest) c i = (rw c (rw i refl), Chosen-none pref rest c i)

  Chosen-skip :
      (pref x : ServerEndpoint) (rest : List ServerEndpoint) (r : Option ServerEndpoint)
      → is_wanted pref x ≡ false
      → Chosen pref rest r
      → Chosen pref (x ∷ rest) r
  Chosen-skip pref x rest none miss h = (miss, h)
  Chosen-skip pref x rest (some s) miss h = record {
    before = x ∷ h.before;
    after = h.after;
    splits = ap (◌∷◌ x) h.splits;
    wanted = h.wanted;
    skipped = (miss, h.skipped);
  }

  search_preferred-step :
      (pref x : ServerEndpoint) (rest : List ServerEndpoint)
      → (str_eq pref.cn [] && str_eq pref.ip []) ≡ false
      → search_preferred text pref (x ∷ rest)
        ≡ (if is_wanted pref x then some x else search_preferred text pref rest)
  search_preferred-step pref x rest set = ground arith

  search_preferred-Chosen :
      (pref : ServerEndpoint) (servers : List ServerEndpoint)
      → (str_eq pref.cn [] && str_eq pref.ip []) ≡ false
      → Chosen pref servers (search_preferred text pref servers)
  search_preferred-Chosen pref [] set = tt
  search_preferred-Chosen pref (x ∷ rest) set = rw (search_preferred-step pref x rest set) (
      if-cases (Chosen pref (x ∷ rest)) (is_wanted pref x)
        (λ hit. record { before = []; after = rest; splits = refl; wanted = hit; skipped = tt })
        (λ miss. Chosen-skip pref x rest _ miss (search_preferred-Chosen pref rest set)))

  -- preferredServerInRegion returns the first server of the region that has the preferred CN up to
  -- case, or the preferred address if no CN is preferred, and none if no server does or nothing is
  -- preferred.
  pub preferred_server_in_region-Chosen :
      (cfg : CityConfig) (region : Region)
      → Chosen cfg.preferred_server region.wireguard_servers
          (preferred_server_in_region text cfg region)
  unfolding preferred_server_in_region
  preferred_server_in_region-Chosen cfg region =
      let pref = cfg.preferred_server in
      if-cases (Chosen pref region.wireguard_servers) (str_eq pref.cn [] && str_eq pref.ip [])
        (λ unset.
          Chosen-none pref region.wireguard_servers ((str_eq_iff pref.cn []).0 (ground arith))
            ((str_eq_iff pref.ip []).0 (ground arith)))
        (λ set. search_preferred-Chosen pref region.wireguard_servers set)
