-- ===== src/Pia/Keys.antt =====
-- The keys of a session and the text that configures its device: generateWireGuardKeyPair and
-- IPCConfig of pia.go.
pub mod Config
use piaproxy.Base.{
  ℕ, suc, ◌+◌, ◌-◌, ◌%◌, ◌<◌, ◌≡◌, Option, none, some, [], ◌∷◌, ◌++◌, length, take, drop, get_or,
  Bytes, codes, All, IsByte, bind,
}
use piaproxy.Net.Decimal.{itoa}
use piaproxy.Pia.Client.{WgSession}

-- encoding/base64 and encoding/hex, and X25519 of the base point.
pub record KeyText : Type 0 where
  pub encode : Bytes → Bytes
  pub decode : Bytes → Option Bytes
  pub hex : Bytes → Bytes
  pub public_of : Bytes → Option Bytes
  -- Base64 reads back what it wrote.
  pub decode-encode : (b : Bytes) → All IsByte b → decode (encode b) ≡ some b
  -- Hexadecimal digits hold no line break.
  pub hex-IsLine : (b : Bytes) → All (λ c. ¬ (c ≡ 10)) (hex b)

-- `priv[0] &= 248`, `priv[31] &= 127` and `priv[31] |= 64`, on 32 bytes.
unfoldable pub clamp : Bytes → Bytes
clamp k =
    let first = get_or k 0 0 in
    let last = get_or k 31 0 in
    (first - first % 8) ∷ take 30 (drop 1 k) ++ (last % 128 % 64 + 64) ∷ []

abbrev pub setting : Bytes → Bytes → Bytes → Bytes
setting name value rest = name ++ b'=' ∷ value ++ 10 ∷ rest

abbrev pub config_text : Bytes → Bytes → Bytes → Bytes
config_text private peer endpoint = setting (codes "private_key") private (
    setting (codes "replace_peers") (codes "true") (
      setting (codes "public_key") peer (
        setting (codes "endpoint") endpoint (
          setting (codes "persistent_keepalive_interval") (codes "25") (
            setting (codes "replace_allowed_ips") (codes "true") (
              setting (codes "allowed_ip") (codes "0.0.0.0/0")
                (setting (codes "allowed_ip") (codes "::/0") [])))))))

module _ (text : KeyText) where
  -- `generateWireGuardKeyPair` on the 32 random bytes, if they are there: public and private.
  unfoldable pub generate_key_pair : Option Bytes → Option (Bytes × Bytes)
  generate_key_pair none = none
  generate_key_pair (some random) =
      bind (text.public_of (clamp random))
        (λ public. some (text.encode public, text.encode (clamp random)))

  -- `IPCConfig`.
  unfoldable pub ipc_config : WgSession → Option Bytes
  ipc_config s = bind (text.decode s.private_key) (λ private.
      bind (text.decode s.server_public_key) (λ peer. some (
        config_text (text.hex private) (text.hex peer) (s.server.ip ++ b':' ∷ itoa s.server_port))))
