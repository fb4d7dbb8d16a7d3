-- ===== src/Socks/Reader.antt =====
-- Reading from a connection. The state is what the peer sends until it closes; a short read fails
-- and leaves nothing unread, like io.ReadFull.
use piaproxy.Base.{
  ◌⊎◌, inl, inr, ℕ, zero, suc, ◌≡◌, refl, ap, Option, none, some, [], ◌∷◌, ◌++◌, length, Bytes,
}
use piaproxy.Base.Result.{Result, ok, err}
use piaproxy.Socks.Wire.{SocksError}

abbrev pub Reader {ℓ} : Type ℓ → Type ℓ
Reader A = Bytes → Result SocksError A × Bytes

abbrev prepend : ℕ → Option (Bytes × Bytes) → Option (Bytes × Bytes)
prepend b none = none
prepend b (some (bs, rest)) = some (b ∷ bs, rest)

unfoldable pub read_full : ℕ → Bytes → Option (Bytes × Bytes)
read_full zero r = some ([], r)
read_full (suc n) [] = none
read_full (suc n) (b ∷ r) = prepend b (read_full n r)

module _ {ℓ} {A : Type ℓ} where
  abbrev pub pure : A → Reader A
  pure a r = (ok a, r)

  abbrev pub fail : SocksError → Reader A
  fail e r = (err e, r)

-- `if _, err := io.ReadFull(r, buf); err != nil { return …, e }` with a buffer of `n` bytes.
abbrev pub read : ℕ → SocksError → Reader Bytes
read n e r = elim (read_full n r) [ none ↦ (err e, []) | some (bs, rest) ↦ (ok bs, rest) ]

module _ {ℓ κ} {A : Type ℓ} {B : Type κ} where
  abbrev pub continue : Result SocksError A → (A → Reader B) → Reader B
  continue (ok a) f r = f a r
  continue (err e) f r = (err e, r)

  infixl 5 ◌>>=◌
  abbrev pub ◌>>=◌ : Reader A → (A → Reader B) → Reader B
  ◌>>=◌ m f r = let (a, rest) = m r in continue a f rest

-- A read of what stands in front takes exactly that.
pub read_full-append : (bs rest : Bytes) → read_full (length bs) (bs ++ rest) ≡ some (bs, rest)
unfolding read_full
read_full-append [] rest = refl
read_full-append (b ∷ bs) rest = ap (prepend b) (read_full-append bs rest)

-- Every reader succeeds or fails, and leaves some of the stream.
pub Reader-cases {ℓ} :
    {A : Type ℓ} (m : Reader A) (r : Bytes)
    → ((a : A) × (rest : Bytes) × (m r ≡ (ok a, rest)))
      ⊎ ((e : SocksError) × (rest : Bytes) × (m r ≡ (err e, rest)))
Reader-cases {A} m r = split (m r) refl
  where
    split :
        (p : Result SocksError A × Bytes)
        → m r ≡ p
        → ((a : A) × (rest : Bytes) × (m r ≡ (ok a, rest)))
          ⊎ ((e : SocksError) × (rest : Bytes) × (m r ≡ (err e, rest)))
    split (ok a, rest) h = inl (a, rest, h)
    split (err e, rest) h = inr (e, rest, h)
