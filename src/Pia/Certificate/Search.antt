-- ===== src/Pia/Certificate/Search.antt =====
-- The search for a certificate ends, and finds the first one.
use piaproxy.Base.{
  ◌⊎◌, ℕ, zero, suc, ◌<◌, ◌≡◌, refl, true, false, Option, none, some, List, [], ◌∷◌, if◌then◌else◌,
  length, Bytes, codes, str_eq, arith, Bool-cases, inl, inr,
}
use piaproxy.Base.Result.{Result, err}
use piaproxy.Pia.Certificate.{
  Block, CertError, no_certificate, Decoders, has_substring, search_pem, parse_certificate,
}

module _ {C : Type 0} (decoders : Decoders C) where
  -- The rest that pem.Decode returns beside a block stands behind it in the input.
  abbrev pub RestIsShorter : Type 0
  RestIsShorter =
      (pem rest : Bytes) (b : Block)
      → decoders.pem_decode pem ≡ (some b, rest)
      → length rest < length pem

  -- The blocks of a text, up to where there are no more.
  pub data Blocks : Bytes → List Block → Type 0 where
    last : {pem : Bytes} (rest : Bytes) → decoders.pem_decode pem ≡ (none, rest) → Blocks pem []
    more :
        {pem : Bytes} (b : Block) (rest : Bytes) {bs : List Block}
        → decoders.pem_decode pem ≡ (some b, rest)
        → Blocks rest bs
        → Blocks pem (b ∷ bs)

  abbrev pub first_certificate : List Block → Result CertError C
  first_certificate [] = err no_certificate
  first_certificate (b ∷ bs) =
      if str_eq b.type (codes "CERTIFICATE")
      then decoders.parse_x509 b.bytes
      else first_certificate bs

  pair_cases :
      (d : Option Block × Bytes)
      → ((rest : Bytes) × (d ≡ (none, rest)))
        ⊎ ((b : Block) × (rest : Bytes) × (d ≡ (some b, rest)))
  pair_cases (none, rest) = inl (rest, refl)
  pair_cases (some b, rest) = inr (b, rest, refl)

  search_pem_lem :
      RestIsShorter
      → (rounds : ℕ) (pem : Bytes) → length pem < rounds
      → (bs : List Block) × Blocks pem bs
        × (search_pem decoders rounds pem ≡ some (first_certificate bs))
  unfolding search_pem
  search_pem_lem shorter zero pem h = absurd (omega arith)
  search_pem_lem shorter (suc rounds) pem h = elim (pair_cases (decoders.pem_decode pem)) [
    | inl (rest, e) ↦ ([], last rest e, rw e refl)
    | inr (b, rest, e) ↦
        let (bs, blocks, found) =
          search_pem_lem shorter rounds rest (omega (arith, shorter pem rest b e)) in
        (b ∷ bs, more b rest e blocks, rw (e, found) (ground arith))
  ]

  -- If the rest that pem.Decode returns beside a block is shorter than its input, ParseCertificate
  -- ends within one round more than there are bytes: of a text with a PEM marker it parses the
  -- first block of a certificate among all blocks, or reports that there is none, and anything
  -- else it parses as it is.
  pub parse_certificate-first :
      RestIsShorter
      → (raw : Bytes)
      → ((has_substring (codes "-----BEGIN") raw ≡ true)
          × ((bs : List Block) × Blocks raw bs
              × (parse_certificate decoders raw ≡ some (first_certificate bs))))
        ⊎ ((has_substring (codes "-----BEGIN") raw ≡ false)
            × (parse_certificate decoders raw ≡ some (decoders.parse_x509 raw)))
  unfolding parse_certificate
  parse_certificate-first shorter raw = elim (Bool-cases (has_substring (codes "-----BEGIN") raw)) [
    | inl pem ↦ inl (pem, rw pem (search_pem_lem shorter (suc (length raw)) raw (omega arith)))
    | inr der ↦ inr (der, rw der refl)
  ]
