-- ===== src/Pia/Regions/Ports.antt =====
-- The port that the list gives to all WireGuard servers.
use piaproxy.Base.{
  List-cases, ◌≡◌, ◌≢◌, refl, ◌⊎◌, inl, inr, ap, true, false, List, [], ◌∷◌, ◌++◌, arith, All,
  codes, Bool-cases,
}
use piaproxy.Base.Int.{ℤ, negsuc}
use piaproxy.Pia.Regions.{ListText, Group, wireguard_port}

module _ (text : ListText) where
  -- `port` is the first port of the first group that is named WireGuard and has a port.
  pub record IsPort (gs : List Group) (port : ℤ) : Type 0 where
    pub before : List Group
    pub after : List Group
    pub group : Group
    pub other_ports : List ℤ
    pub splits : gs ≡ before ++ group ∷ after
    pub named : text.equal_fold group.name (codes "WireGuard") ≡ true
    pub first : group.ports ≡ port ∷ other_ports
    pub skipped :
        All (λ g. (text.equal_fold g.name (codes "WireGuard") ≡ false) ⊎ (g.ports ≡ [])) before

  abbrev IsSkipped : Group → Type 0
  IsSkipped g = (text.equal_fold g.name (codes "WireGuard") ≡ false) ⊎ (g.ports ≡ [])

  wireguard_port_skip :
      (g : Group) (gs : List Group)
      → IsSkipped g
      → wireguard_port text (g ∷ gs) ≡ wireguard_port text gs
  unfolding wireguard_port
  wireguard_port_skip g gs (inl e) = rw e
  wireguard_port_skip g gs (inr e) = ground arith

  wireguard_port_here :
      (g : Group) (gs : List Group) (p : ℤ) (ps : List ℤ)
      → text.equal_fold g.name (codes "WireGuard") ≡ true
      → g.ports ≡ p ∷ ps
      → wireguard_port text (g ∷ gs) ≡ p
  unfolding wireguard_port
  wireguard_port_here g gs p ps n e = ground arith

  group-cases :
      (g : Group)
      → IsSkipped g
        ⊎ ((p : ℤ) × (ps : List ℤ) × (text.equal_fold g.name (codes "WireGuard") ≡ true)
            × (g.ports ≡ p ∷ ps))
  group-cases g = elim (Bool-cases (text.equal_fold g.name (codes "WireGuard"))) [
    | inr no_match ↦ inl (inl no_match)
    | inl named ↦ elim (List-cases g.ports) [
      | inl e ↦ inl (inr e)
      | inr (p, ps, e) ↦ inr (p, ps, named, e)
    ]
  ]

  pub wireguard_port-IsPort :
      (gs : List Group) → wireguard_port text gs ≢ negsuc 0 → IsPort gs (wireguard_port text gs)
  wireguard_port-IsPort [] h = absurd (h (unfold wireguard_port in refl))
  wireguard_port-IsPort (g ∷ gs) h = elim (group-cases g) [
    | inl why ↦
        let e = wireguard_port_skip g gs why in
        let m = wireguard_port-IsPort gs (rw e at h) in
        rw e (record {
          before = g ∷ m.before;
          after = m.after;
          group = m.group;
          other_ports = m.other_ports;
          splits = ap (◌∷◌ g) m.splits;
          named = m.named;
          first = m.first;
          skipped = (why, m.skipped);
        })
    | inr (p, ps, named, e) ↦ rw (wireguard_port_here g gs p ps named e) (record {
      before = [];
      after = gs;
      group = g;
      other_ports = ps;
      splits = refl;
      named = named;
      first = e;
      skipped = tt;
    })
  ]
