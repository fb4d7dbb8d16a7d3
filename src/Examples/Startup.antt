-- ===== src/Examples/Startup.antt =====
-- The start of the daemon, its dashboard, and a certificate, with the theorems about them.
use mathlib.Core.List.Permᴰ
use mathlib.Core.List.{Permᴰ}
use piaproxy.Base.{
  ℕ, ◌≡◌, refl, ◌⊎◌, Bool, true, false, Option, none, some, List, [], ◌∷◌, if◌then◌else◌, arith,
  Bytes, codes, All, ltb, if-cases,
}
use piaproxy.Base.Result.{Result, ok}
use piaproxy.Pia.Certificate.{Block, CertError, Decoders, has_substring, parse_certificate}
use piaproxy.Pia.Certificate.Search.{
  Blocks, first_certificate, RestIsShorter, parse_certificate-first,
}
use piaproxy.Proxy.{Proxy, launch}
use piaproxy.Proxy.Status.{Moments}
use piaproxy.Daemon.Startup.{no_opts, Environment, start_up}
use piaproxy.Daemon.Startup.Ready.{Outcome, configured_by, start_up-Outcome}
use piaproxy.Daemon.Dashboard.{no_store, ApiPayload, handle_api}
use piaproxy.Daemon.Dashboard.Counts.{Ordered, IsOrdering, Sorts, Agrees, handle_api-Agrees}
use piaproxy.Examples.{sample_net}
use piaproxy.Examples.Daemon.{names}
use piaproxy.Examples.Pia.{api}
use piaproxy.Examples.Session.{city}
use piaproxy.Examples.Tunnel.{floats}

-- Sorting by insertion, for sort.Slice.
module _ {A : Type 0} (less : A → A → Bool) where
  insert : A → List A → List A
  insert x [] = x ∷ []
  insert x (y ∷ ys) = let rest = insert x ys in if less x y then x ∷ y ∷ ys else y ∷ rest

  insertion_sort : List A → List A
  insertion_sort [] = []
  insertion_sort (x ∷ xs) = insert x (insertion_sort xs)

  insert-perm : (x : A) (xs : List A) → Permᴰ (x ∷ xs) (insert x xs)
  unfolding insert
  insert-perm x [] = Permᴰ.refl (x ∷ [])
  insert-perm x (y ∷ ys) =
      if-cases (Permᴰ (x ∷ y ∷ ys)) (less x y) (λ _. Permᴰ.refl (x ∷ y ∷ ys))
        (λ _. Permᴰ.trans (Permᴰ.swap refl refl) (Permᴰ.cons refl (insert-perm x ys)))

  insertion_sort-perm : (xs : List A) → Permᴰ xs (insertion_sort xs)
  unfolding insertion_sort
  insertion_sort-perm [] = Permᴰ.nil
  insertion_sort-perm (x ∷ xs) =
      Permᴰ.trans (Permᴰ.cons refl (insertion_sort-perm xs)) (insert-perm x (insertion_sort xs))

  All-insert : (P : A → Type 0) (x : A) (xs : List A) → P x → All P xs → All P (insert x xs)
  unfolding insert
  All-insert P x [] px ps = (px, ps)
  All-insert P x (y ∷ ys) px ps =
      if-cases (All P) (less x y) (λ _. (px, ps)) (λ _. (ps.0, All-insert P x ys px ps.1))

  All-chain :
      IsOrdering less
      → (x y : A) (ys : List A) → less y x ≡ false
      → All (λ z. less z y ≡ false) ys
      → All (λ z. less z x ≡ false) ys
  All-chain o x y [] h k = tt
  All-chain o x y (z ∷ ys) h k = (o.chain z y x k.0 h, All-chain o x y ys h k.1)

  insert-Ordered :
      IsOrdering less → (x : A) (xs : List A) → Ordered less xs → Ordered less (insert x xs)
  unfolding insert
  insert-Ordered o x [] h = (tt, tt)
  insert-Ordered o x (y ∷ ys) h =
      if-cases (Ordered less) (less x y)
        (λ before. ((o.asym x y before, All-chain o x y ys (o.asym x y before) h.0), h))
        (λ after. (All-insert (λ z. less z y ≡ false) x ys after h.0, insert-Ordered o x ys h.1))

  insertion_sort-Ordered : IsOrdering less → (xs : List A) → Ordered less (insertion_sort xs)
  unfolding insertion_sort
  insertion_sort-Ordered o [] = tt
  insertion_sort-Ordered o (x ∷ xs) =
      insert-Ordered o x (insertion_sort xs) (insertion_sort-Ordered o xs)

insertion_sort-Sorts : {A : Type 0} → Sorts (insertion_sort {A = A})
insertion_sort-Sorts less xs o = (insertion_sort-perm less xs, insertion_sort-Ordered less o xs)

abbrev at_once : Proxy ℕ → Moments ℕ
at_once p = record { fields = p; tunnel = p; listener = p }

abbrev proxies : List (ℕ × Moments ℕ)
proxies =
    (3, at_once (launch floats city no_opts))
    ∷ (4, at_once (launch floats (record city { city = codes "B" }) no_opts))
    ∷ []

handle_api-Agrees_example :
    (a : ApiPayload ℕ) × (handle_api insertion_sort floats sample_net none 1 5 proxies
      ≡ no_store (codes "application/json; charset=utf-8") a)
    × Agrees floats sample_net none proxies a
handle_api-Agrees_example =
    handle_api-Agrees floats sample_net none insertion_sort insertion_sort-Sorts 1 5 proxies

-- A block is one byte, its type `CERTIFICATE` if this is no letter.
abbrev next_block : Bytes → Option Block × Bytes
next_block [] = (none, [])
next_block (c ∷ cs) = (
  some (record { type = if ltb c 65 then codes "CERTIFICATE" else codes "KEY"; bytes = c ∷ [] }),
  cs,
)

abbrev decoders : Decoders Bytes
decoders = record { pem_decode = next_block; parse_x509 = λ der. ok der }

next_block-shorter : RestIsShorter decoders
next_block-shorter [] rest b e = absurd (ground arith)
next_block-shorter (c ∷ cs) rest b e = ground arith

abbrev pem : Bytes
pem = codes "A-----BEGIN"

parse_certificate-first_example :
    ((has_substring (codes "-----BEGIN") pem ≡ true)
      × ((bs : List Block) × Blocks decoders pem bs
          × (parse_certificate decoders pem ≡ some (first_certificate decoders bs))))
    ⊎ ((has_substring (codes "-----BEGIN") pem ≡ false)
        × (parse_certificate decoders pem ≡ some (ok pem)))
parse_certificate-first_example = parse_certificate-first decoders next_block-shorter pem

abbrev environment : Environment
environment = record {
  pia_user = codes "u";
  pia_pwd = codes "p";
  pia_cert_file = [];
  control_addr = [];
  bind_addr = [];
  base_port = [];
  pia_regions = codes "A=a,B=b";
}

abbrev load : Bytes → Result CertError Bytes
load path = ok path

start_up-Outcome_example :
    Outcome names (configured_by names environment) (start_up names (api 200) load environment)
start_up-Outcome_example = start_up-Outcome names (api 200) load environment
