-- ===== src/Pia/Keys/Config.antt =====
-- What a device reads from the text of IPCConfig, and the shape of a private key.
use piaproxy.Base.{
  ℕ, zero, suc, ◌+◌, ◌%◌, ◌<◌, ◌≤◌, ◌≡◌, refl, arith, some, List, [], ◌∷◌, ◌++◌, length, take,
  get_or, Bytes, codes, All, IsByte, if◌then◌else◌, ◌==◌, length-append,
}
use piaproxy.Net.Decimal.{itoa, itoa-line}
use piaproxy.Pia.Client.{WgSession}
use piaproxy.Pia.Keys.{KeyText, setting, config_text, clamp, generate_key_pair, ipc_config}

abbrev pub IsLineByte : ℕ → Type 0
IsLineByte c = ¬ (c ≡ 10)

abbrev onto : ℕ → List Bytes → List Bytes
onto c [] = (c ∷ []) ∷ []
onto c (l ∷ ls) = (c ∷ l) ∷ ls

-- The lines of a text, each without the line break that ends it.
abbrev pub lines : Bytes → List Bytes
lines [] = []
lines (c ∷ cs) = if c == 10 then [] ∷ lines cs else onto c (lines cs)

lines-line : (l rest : Bytes) → All IsLineByte l → lines (l ++ 10 ∷ rest) ≡ l ∷ lines rest
lines-line [] rest h = refl
lines-line (c ∷ l) rest h = ground (arith, lines-line l rest h.1)

length-take : {A : Type 0} (n : ℕ) (xs : List A) → n ≤ length xs → length (take n xs) ≡ n
length-take zero xs h = refl
length-take (suc n) [] h = omega arith
length-take (suc n) (x ∷ xs) h = ground (arith, length-take n xs)

All-take : {A : Type 0} (P : A → Type 0) (n : ℕ) (xs : List A) → All P xs → All P (take n xs)
All-take P zero xs h = tt
All-take P (suc n) [] h = tt
All-take P (suc n) (x ∷ xs) h = (h.0, All-take P n xs h.1)

All-append : {A : Type 0} (P : A → Type 0) (xs ys : List A) → All P xs → All P ys → All P (xs ++ ys)
All-append P [] ys h k = k
All-append P (x ∷ xs) ys h k = (h.0, All-append P xs ys h.1 k)

get_or-append : (xs : Bytes) (n y : ℕ) → length xs ≡ n → get_or (xs ++ y ∷ []) n 0 ≡ y
get_or-append [] n y e = ground arith
get_or-append (x ∷ xs) zero y e = omega arith
get_or-append (x ∷ xs) (suc n) y e = get_or-append xs n y (omega arith)

-- The clamping of 32 bytes gives 32 bytes, a little-endian number that is a multiple of 8 and
-- whose two highest bits are 01.
pub clamp-IsScalar :
    (k : Bytes)
    → length k ≡ 32
    → All IsByte k
    → (length (clamp k) ≡ 32)
      × All IsByte (clamp k)
      × (get_or (clamp k) 0 0 % 8 ≡ 0)
      × (64 ≤ get_or (clamp k) 31 0)
      × (get_or (clamp k) 31 0 < 128)
unfolding clamp
clamp-IsScalar [] l h = omega arith
clamp-IsScalar (k ∷ ks) l h =
    let n = length-take 30 ks (omega arith) in
    let last = get_or ks 30 0 % 128 % 64 + 64 in
    let at_end = get_or-append (take 30 ks) 30 last n in
    let bytes =
      All-append IsByte (take 30 ks) (last ∷ []) (All-take IsByte 30 ks h.1) (omega arith, tt) in
    (
      ground (arith, length-append (take 30 ks) (last ∷ [])),
      (omega arith, bytes),
      omega arith,
      ground arith,
      ground arith,
    )

lines-setting :
    (name value rest : Bytes)
    → All IsLineByte name
    → All IsLineByte value
    → lines (setting name value rest) ≡ (name ++ b'=' ∷ value) ∷ lines rest
lines-setting [] value rest h k = lines-line (b'=' ∷ value) rest ((λ e. omega arith), k)
lines-setting (c ∷ name) value rest h k = ground (arith, lines-setting name value rest h.1 k)

config_text-lines :
    (private peer endpoint : Bytes)
    → All IsLineByte private
    → All IsLineByte peer
    → All IsLineByte endpoint
    → lines (config_text private peer endpoint)
      ≡ (codes "private_key=" ++ private)
        ∷ codes "replace_peers=true"
        ∷ (codes "public_key=" ++ peer)
        ∷ (codes "endpoint=" ++ endpoint)
        ∷ codes "persistent_keepalive_interval=25"
        ∷ codes "replace_allowed_ips=true"
        ∷ codes "allowed_ip=0.0.0.0/0"
        ∷ codes "allowed_ip=::/0"
        ∷ []
config_text-lines private peer endpoint a b c =
    rw (lines-line private _ a) (rw (lines-line peer _ b) (rw (lines-line endpoint _ c)))

-- For a session whose private key generateWireGuardKeyPair made of 32 random bytes, whose server
-- key decodes and whose server address is on one line, IPCConfig is a text of exactly eight lines
-- with the clamped key, the peer key, the endpoint and the fixed settings.
pub ipc_config-lines :
    (text : KeyText) (random public peer : Bytes) (s : WgSession)
    → length random ≡ 32
    → All IsByte random
    → generate_key_pair text (some random) ≡ some (public, s.private_key)
    → text.decode s.server_public_key ≡ some peer
    → All IsLineByte s.server.ip
    → (config : Bytes) × (ipc_config text s ≡ some config)
      × (lines config
          ≡ (codes "private_key=" ++ text.hex (clamp random))
            ∷ codes "replace_peers=true"
            ∷ (codes "public_key=" ++ text.hex peer)
            ∷ (codes "endpoint=" ++ s.server.ip ++ b':' ∷ itoa s.server_port)
            ∷ codes "persistent_keepalive_interval=25"
            ∷ codes "replace_allowed_ips=true"
            ∷ codes "allowed_ip=0.0.0.0/0"
            ∷ codes "allowed_ip=::/0"
            ∷ [])
unfolding ipc_config generate_key_pair
ipc_config-lines text random public peer s l h made decoded ip =
    let scalar = clamp-IsScalar random l h in
    let read = text.decode-encode (clamp random) scalar.1 in
    let endpoint =
      All-append IsLineByte s.server.ip (b':' ∷ itoa s.server_port) ip
        ((λ e. omega arith), itoa-line s.server_port) in
    (
      config_text (text.hex (clamp random)) (text.hex peer)
          (s.server.ip ++ b':' ∷ itoa s.server_port),
      ground (arith, read),
      config_text-lines _ _ _ (text.hex-IsLine (clamp random)) (text.hex-IsLine peer) endpoint,
    )
