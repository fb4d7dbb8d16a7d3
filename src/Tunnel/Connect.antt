-- ===== src/Tunnel/Connect.antt =====
-- How runOnce brings a session up: the server, the registration, the addresses and the device.
pub mod Preferred
pub mod Requests
pub mod Bringup
pub mod Made
pub mod Verified
use piaproxy.Base.{
  ℕ, ◌&&◌, not, Bool, Option, none, some, List, [], ◌∷◌, if◌then◌else◌, Bytes, str_eq, codes,
}
use piaproxy.Base.Result.{Result, ok, err, ◌>>=◌, or_err}
use piaproxy.Net.{to4}
use piaproxy.Pia.Http.{PiaError}
use piaproxy.Pia.Regions.{ListText, ServerEndpoint, Region}
use piaproxy.Pia.Client.{Api, Pia, WgSession, find_region, new_session, new_session_with_server}
use piaproxy.Pia.Keys.{KeyText, ipc_config}
use piaproxy.Tunnel.{
  CityConfig, TunnelError, region_lookup, add_key, invalid_peer_ip, create_tun, build_ipc, ipc_set,
  wg_up,
}

module _ (text : ListText) where
  abbrev pub search_preferred : ServerEndpoint → List ServerEndpoint → Option ServerEndpoint
  search_preferred pref [] = none
  search_preferred pref (s ∷ rest) =
      let later = search_preferred pref rest in
      if not (str_eq pref.cn []) && text.equal_fold s.cn pref.cn
      then some s
      else if str_eq pref.cn [] && str_eq s.ip pref.ip
      then some s
      else later

  -- `preferredServerInRegion`.
  unfoldable pub preferred_server_in_region : CityConfig → Region → Option ServerEndpoint
  preferred_server_in_region cfg region =
      if str_eq cfg.preferred_server.cn [] && str_eq cfg.preferred_server.ip []
      then none
      else search_preferred cfg.preferred_server region.wireguard_servers

module _ (api : Api) where
  abbrev pub or_random : Region → Result PiaError WgSession × Pia → Result PiaError WgSession × Pia
  or_random region (ok session, p) = (ok session, p)
  or_random region (err _, p) = new_session api region p

  abbrev pub register_with : Option ServerEndpoint → Region → Pia → Result PiaError WgSession × Pia
  register_with none region p = new_session api region p
  register_with (some pref) region p = or_random region (new_session_with_server api region pref p)

  -- Step 2 of runOnce: the preferred server, and then one at random.
  unfoldable pub register : CityConfig → Region → Pia → Result PiaError WgSession × Pia
  register cfg region p =
      register_with (preferred_server_in_region api.list_text cfg region) region p

  abbrev pub registered : Result PiaError WgSession × Pia → Result TunnelError WgSession × Pia
  registered (err e, p) = (err (add_key e), p)
  registered (ok session, p) = (ok session, p)

  abbrev pub in_region :
      CityConfig → Result PiaError Region × Pia → Result TunnelError WgSession × Pia
  in_region cfg (err e, p) = (err (region_lookup e), p)
  in_region cfg (ok region, p) = registered (register cfg region p)

  -- Steps 1 and 2.
  unfoldable pub acquire : CityConfig → Pia → Result TunnelError WgSession × Pia
  acquire cfg p = in_region cfg (find_region api cfg.region p)

-- The userspace network stack and WireGuard device; both are named by numbers.
pub record Devices : Type 0 where
  -- CreateNetTUN: the TUN device and the netstack.
  pub create_net_tun : Bytes → List Bytes → ℕ → Option (ℕ × ℕ)
  -- NewDevice on a TUN device.
  pub new_device : ℕ → ℕ
  pub set_ipc : ℕ → Bytes → Bool
  pub device_up : ℕ → Bool

-- The loop over the DNS servers, and the fallback.
unfoldable pub ipv4_only : List Bytes → List Bytes
ipv4_only [] = []
ipv4_only (ip ∷ ips) = elim (to4 ip) [ none ↦ ipv4_only ips | some a ↦ a ∷ ipv4_only ips ]

abbrev pub fallback_dns : Bytes
fallback_dns = 10 ∷ 0 ∷ 0 ∷ 243 ∷ []

abbrev pub or_fallback : List Bytes → List Bytes
or_fallback [] = fallback_dns ∷ []
or_fallback (a ∷ rest) = a ∷ rest

unfoldable pub dns_addrs : List Bytes → List Bytes
dns_addrs ips = or_fallback (ipv4_only ips)

-- The devices that were made and that were closed, in order.
pub data DeviceEvent : Type 0 where
  opened closed : ℕ → DeviceEvent

module _ (text : KeyText) (devices : Devices) where
  abbrev give_up : ℕ → TunnelError → Result TunnelError (ℕ × ℕ) × List DeviceEvent
  give_up dev e = (err e, opened dev ∷ closed dev ∷ [])

  abbrev configure : WgSession → ℕ → ℕ → Result TunnelError (ℕ × ℕ) × List DeviceEvent
  configure session dev net = elim (ipc_config text session) [
    | none ↦ give_up dev build_ipc
    | some ipc ↦
        if not (devices.set_ipc dev ipc)
        then give_up dev ipc_set
        else if not (devices.device_up dev)
        then give_up dev wg_up
        else (ok (dev, net), opened dev ∷ [])
  ]

  abbrev on_tun : WgSession → Option (ℕ × ℕ) → Result TunnelError (ℕ × ℕ) × List DeviceEvent
  on_tun session none = (err create_tun, [])
  on_tun session (some (tun, net)) = configure session (devices.new_device tun) net

  -- Steps 3 and 4: the device and the netstack of a session.
  unfoldable pub bring_up : WgSession → Result TunnelError (ℕ × ℕ) × List DeviceEvent
  bring_up session = elim (to4 session.peer_ip) [
    | none ↦ (err invalid_peer_ip, [])
    | some peer ↦ on_tun session (devices.create_net_tun peer (dns_addrs session.dns_servers) 1420)
  ]
