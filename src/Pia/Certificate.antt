-- ===== src/Pia/Certificate.antt =====
-- LoadCertFromFile and ParseCertificate of pia.go. The decoders of PEM and of DER are parameters.
pub mod Search
use piaproxy.Base.{
  ℕ, zero, suc, ◌==◌, Bool, true, false, ◌&&◌, ◌||◌, Option, none, some, List, [], ◌∷◌,
  if◌then◌else◌, length, Bytes, codes, str_eq,
}
use piaproxy.Base.Result.{Result, ok, err, ◌>>=◌}

-- pem.Block, without its headers.
pub record Block : Type 0 where
  pub type : Bytes
  pub bytes : Bytes

-- os.ReadFile and x509.ParseCertificate have failed, or there is no PEM block of a certificate.
pub data CertError : Type 0 where
  unreadable : Bytes → CertError
  not_x509 : Bytes → CertError
  no_certificate : CertError

pub record Decoders (C : Type 0) : Type 0 where
  -- pem.Decode: the next block, if there is one, and the rest.
  pub pem_decode : Bytes → Option Block × Bytes
  pub parse_x509 : Bytes → Result CertError C

unfoldable pub has_prefix : Bytes → Bytes → Bool
has_prefix [] s = true
has_prefix (x ∷ xs) [] = false
has_prefix (x ∷ xs) (c ∷ s) = (x == c) && has_prefix xs s

-- `strings.Contains`.
unfoldable pub has_substring : Bytes → Bytes → Bool
unfolding has_prefix
has_substring part [] = has_prefix part []
has_substring part (c ∷ s) = has_prefix part (c ∷ s) || has_substring part s

module _ {C : Type 0} (decoders : Decoders C) where
  abbrev pub on_block :
      (Bytes → Option (Result CertError C)) → Option Block × Bytes → Option (Result CertError C)
  on_block go (none, rest) = some (err no_certificate)
  on_block go (some b, rest) =
      let found = some (decoders.parse_x509 b.bytes) in
      if str_eq b.type (codes "CERTIFICATE") then found else go rest

  -- The loop of ParseCertificate; `none` is no result within so many rounds.
  unfoldable pub search_pem : ℕ → Bytes → Option (Result CertError C)
  search_pem zero pem = none
  search_pem (suc rounds) pem = on_block (search_pem rounds) (decoders.pem_decode pem)

  -- `ParseCertificate`, whose loop has one round more than there are bytes.
  unfoldable pub parse_certificate : Bytes → Option (Result CertError C)
  parse_certificate raw =
      if has_substring (codes "-----BEGIN") raw
      then search_pem (suc (length raw)) raw
      else some (decoders.parse_x509 raw)

  -- `LoadCertFromFile`, with what os.ReadFile returns.
  unfoldable pub load_cert_from_file : Result CertError Bytes → Option (Result CertError C)
  load_cert_from_file (err e) = some (err e)
  load_cert_from_file (ok raw) = parse_certificate raw
