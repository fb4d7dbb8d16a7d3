-- ===== src/Tunnel/Connect/Bringup.antt =====
-- The device of an attempt is published or closed.
use piaproxy.Base.{
  ℕ, ◌≡◌, refl, arith, some, List, [], ◌∷◌, Bytes, All, length, inl, inr, Option-cases, zero, suc,
  ◌-◌, drop, ◌<◌, ◌==◌, if◌then◌else◌,
}
use piaproxy.Base.Result.{Result, ok, err}
use piaproxy.Net.{to4}
use piaproxy.Pia.Client.{WgSession}
use piaproxy.Pia.Keys.{KeyText}
use piaproxy.Tunnel.{TunnelError}
use piaproxy.Tunnel.Connect.{
  Devices, DeviceEvent, opened, closed, bring_up, dns_addrs, ipv4_only, or_fallback,
}

-- The devices that the events leave open.
abbrev remove : ℕ → List ℕ → List ℕ
remove d [] = []
remove d (x ∷ xs) = if x == d then xs else x ∷ remove d xs

abbrev pub left_open : List ℕ → List DeviceEvent → List ℕ
left_open open_now [] = open_now
left_open open_now (opened d ∷ es) = left_open (d ∷ open_now) es
left_open open_now (closed d ∷ es) = left_open (remove d open_now) es

-- The devices that an attempt may leave open: the one it returns.
abbrev pub returned : Result TunnelError (ℕ × ℕ) → List ℕ
returned (err e) = []
returned (ok (dev, net)) = dev ∷ []

module _ (text : KeyText) (devices : Devices) where
  -- Whichever step of the bring-up fails, the device that was made is closed, and after a success
  -- exactly the returned device is open.
  pub bring_up-left_open :
      (session : WgSession)
      → left_open [] (bring_up text devices session).1 ≡ returned (bring_up text devices session).0
  unfolding bring_up
  bring_up-left_open session = ground arith

length-drop : (n : ℕ) (xs : Bytes) → length (drop n xs) ≡ length xs - n
length-drop zero xs = omega arith
length-drop (suc n) [] = omega arith
length-drop (suc n) (x ∷ xs) = rw (length-drop n xs) (omega arith)

length-to4 : (ip a : Bytes) → to4 ip ≡ some a → length a ≡ 4
unfolding to4
length-to4 ip a e = ground (arith, length-drop 12 ip)

ipv4_only-ipv4 : (ips : List Bytes) → All (λ a. length a ≡ 4) (ipv4_only ips)
unfolding ipv4_only
ipv4_only-ipv4 [] = tt
ipv4_only-ipv4 (ip ∷ ips) = elim (Option-cases (to4 ip)) [
  | inl absent ↦ rw (absent, All) (ipv4_only-ipv4 ips)
  | inr (a, present) ↦ rw (present, All) (length-to4 ip a present, ipv4_only-ipv4 ips)
]

or_fallback-ipv4 :
    (addrs : List Bytes)
    → All (λ a. length a ≡ 4) addrs
    → All (λ a. length a ≡ 4) (or_fallback addrs) × (0 < length (or_fallback addrs))
or_fallback-ipv4 [] h = ((refl, tt), omega arith)
or_fallback-ipv4 (a ∷ rest) h = (h, omega arith)

-- The resolvers handed to the netstack are addresses of four bytes, and there is one at least.
dns_addrs-ipv4 :
    (ips : List Bytes) → All (λ a. length a ≡ 4) (dns_addrs ips) × (0 < length (dns_addrs ips))
unfolding dns_addrs
dns_addrs-ipv4 ips = or_fallback-ipv4 (ipv4_only ips) (ipv4_only-ipv4 ips)
