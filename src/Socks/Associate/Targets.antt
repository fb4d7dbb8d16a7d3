-- ===== src/Socks/Associate/Targets.antt =====
-- The connections of an association to its targets.
use piaproxy.Base.{
  ◌↔◌, str_eq_iff, ℕ, zero, suc, ◌≡◌, refl, inl, inr, true, false, List, [], ◌∷◌, ◌++◌, arith, take,
  All, IsByte, Bytes, Bool-cases,
}
use piaproxy.Socks.Wire.{SocksAddr}
use piaproxy.Socks.State.{Target}
use piaproxy.Socks.Associate.{addr_eq, has_target, is_live, stop_target}

addr_eq_iff : (a b : SocksAddr) → (addr_eq a b ≡ true) ↔ (a ≡ b)
unfolding addr_eq
addr_eq_iff a b = ground (arith, str_eq_iff a.addr b.addr)

-- No address has two connections.
abbrev pub Distinct : List Target → Type 0
Distinct [] = Unit {0}
Distinct (t ∷ ts) = (has_target t.target ts ≡ false) × Distinct ts

has_target-stop_target :
    (a b : SocksAddr) (ts : List Target) → has_target a (stop_target b ts) ≡ has_target a ts
unfolding has_target stop_target
has_target-stop_target a b [] = refl
has_target-stop_target a b (t ∷ ts) = ground (arith, has_target-stop_target a b ts)

pub Distinct-stop_target :
    (b : SocksAddr) (ts : List Target) → Distinct ts → Distinct (stop_target b ts)
unfolding stop_target
Distinct-stop_target b [] h = tt
Distinct-stop_target b (t ∷ ts) h =
    ground (arith, Distinct-stop_target b ts h.1, has_target-stop_target t.target b ts)

module _ (P : SocksAddr → Type 0) where
  pub All-stop_target :
      (b : SocksAddr) (ts : List Target)
      → All (λ t. P t.target) ts
      → All (λ t. P t.target) (stop_target b ts)
  unfolding stop_target
  All-stop_target b [] h = tt
  All-stop_target b (t ∷ ts) h = ground (arith, All-stop_target b ts h.1)

  -- A live target is one of the targets.
  pub All-is_live :
      (a : SocksAddr) (ts : List Target) → All (λ t. P t.target) ts → is_live a ts ≡ true → P a
  unfolding is_live
  All-is_live a [] h e = absurd (ground arith)
  All-is_live a (t ∷ ts) h e = elim (Bool-cases (addr_eq t.target a)) [
    | inl hit ↦ rw ((addr_eq_iff t.target a).0 hit) at h.0
    | inr miss ↦ All-is_live a ts h.1 (ground arith)
  ]

pub All-concat {ℓ κ} :
    {A : Type ℓ} (P : A → Type κ) (xs : List A) (x : A) → All P xs → P x → All P (xs ++ (x ∷ []))
All-concat P [] x h p = (p, tt)
All-concat P (y ∷ xs) x h p = (h.0, All-concat P xs x h.1 p)

pub All-take : (n : ℕ) (xs : Bytes) → All IsByte xs → All IsByte (take n xs)
All-take zero xs h = tt
All-take (suc n) [] h = tt
All-take (suc n) (x ∷ xs) h = (h.0, All-take n xs h.1)
