-- ===== src/Examples/Session.antt =====
-- A session brought up on a concrete device, and the theorems about its keys, server and device.
use piaproxy.Base.{
  ◌+◌, ◌≡◌, refl, ◌⊎◌, true, false, some, [], ◌∷◌, ◌++◌, arith, length, Bytes, codes, All, IsByte,
  ◌≤◌, ◌<◌, ◌%◌, get_or, ◌↔◌,
}
use piaproxy.Base.Int.{pos}
use piaproxy.Net.Decimal.{itoa}
use piaproxy.Pia.Client.{WgSession}
use piaproxy.Pia.Keys.{KeyText, clamp, generate_key_pair, ipc_config}
use piaproxy.Pia.Keys.Config.{lines, clamp-IsScalar, ipc_config-lines}
use piaproxy.Tunnel.{CityConfig}
use piaproxy.Tunnel.Connect.{preferred_server_in_region, register, Devices, bring_up}
use piaproxy.Tunnel.Connect.Requests.{PreferredRejected, register-requests}
use piaproxy.Tunnel.Connect.Bringup.{left_open, returned, bring_up-left_open}
use piaproxy.Pia.Regions.{search_region}
use piaproxy.Pia.Regions.Search.{FirstMatch, search_region_iff}
use piaproxy.Tunnel.Connect.Preferred.{Chosen, preferred_server_in_region-Chosen}
use piaproxy.Examples.Pia.{list_text, server_one, region_a, sixteen, api, client}

-- Base64 and hexadecimal as the identity, but for the line breaks, which hexadecimal cannot hold.
abbrev pub no_breaks : Bytes → Bytes
no_breaks [] = []
no_breaks (c ∷ cs) = (c + 11) ∷ no_breaks cs

pub no_breaks-line : (b : Bytes) → All (λ c. ¬ (c ≡ 10)) (no_breaks b)
no_breaks-line [] = tt
no_breaks-line (c ∷ cs) = ((λ e. omega arith), no_breaks-line cs)

abbrev pub key_text : KeyText
key_text = record {
  encode = λ b. b;
  decode = λ b. some b;
  hex = no_breaks;
  public_of = λ k. some (codes "pub");
  decode-encode = λ b h. refl;
  hex-IsLine = no_breaks-line;
}

abbrev random : Bytes
random =
    255 ∷ 1 ∷ 2 ∷ 3 ∷ 4 ∷ 5 ∷ 6 ∷ 7 ∷ 8 ∷ 9 ∷ 10 ∷ 11 ∷ 12 ∷ 13 ∷ 14 ∷ 15 ∷ 16 ∷ 17 ∷ 18 ∷ 19 ∷ 20
    ∷ 21 ∷ 22 ∷ 23 ∷ 24 ∷ 25 ∷ 26 ∷ 27 ∷ 28 ∷ 29 ∷ 30 ∷ 255 ∷ []

random-IsBytes : All IsByte random
random-IsBytes = ground arith

abbrev pub session : WgSession
session = record {
  region = codes "a";
  server = server_one;
  peer_ip = sixteen;
  server_public_key = codes "k";
  server_port = pos 1337;
  dns_servers = sixteen ∷ [];
  private_key = clamp random;
  public_key = codes "pub";
}

key_made : generate_key_pair key_text (some random) ≡ some (codes "pub", session.private_key)
unfolding generate_key_pair
key_made = refl

clamp-IsScalar_example :
    (length (clamp random) ≡ 32)
    × All IsByte (clamp random)
    × (get_or (clamp random) 0 0 % 8 ≡ 0)
    × (64 ≤ get_or (clamp random) 31 0)
    × (get_or (clamp random) 31 0 < 128)
clamp-IsScalar_example = clamp-IsScalar random refl random-IsBytes

ipc_config-lines_example :
    (config : Bytes) × (ipc_config key_text session ≡ some config)
    × (lines config
        ≡ (codes "private_key=" ++ no_breaks (clamp random))
          ∷ codes "replace_peers=true"
          ∷ (codes "public_key=" ++ no_breaks (codes "k"))
          ∷ (codes "endpoint=" ++ codes "1" ++ b':' ∷ itoa (pos 1337))
          ∷ codes "persistent_keepalive_interval=25"
          ∷ codes "replace_allowed_ips=true"
          ∷ codes "allowed_ip=0.0.0.0/0"
          ∷ codes "allowed_ip=::/0"
          ∷ [])
ipc_config-lines_example =
    ipc_config-lines key_text random (codes "pub") (codes "k") session refl random-IsBytes key_made
      refl ((λ e. omega arith), tt)

abbrev pub city : CityConfig
city = record {
  city = codes "A";
  region = codes "a";
  listen = codes "l";
  preferred_server = record { ip = []; cn = codes "one"; port = pos 0 };
}

register-requests_example :
    ((register (api 401) city region_a (client (codes "t"))).1.token_calls ≡ 0)
    ⊎ (((register (api 401) city region_a (client (codes "t"))).1.token_calls ≤ 1)
        × PreferredRejected (api 401) city region_a (client (codes "t")))
register-requests_example =
    register-requests (api 401) city region_a (client (codes "t")) (λ e. ground arith)

-- A device that does not come up.
abbrev pub devices : Devices
devices = record {
  create_net_tun = λ peer dns mtu. some (1, 2);
  new_device = λ tun. 3;
  set_ipc = λ dev ipc. true;
  device_up = λ dev. false;
}

bring_up-left_open_example :
    left_open [] (bring_up key_text devices session).1
    ≡ returned (bring_up key_text devices session).0
bring_up-left_open_example = bring_up-left_open key_text devices session

search_region_iff_example :
    (search_region list_text (codes "a") (region_a ∷ []) ≡ some region_a)
    ↔ FirstMatch list_text (codes "a") (region_a ∷ []) region_a
search_region_iff_example = search_region_iff list_text (codes "a") (region_a ∷ []) region_a

preferred_server_in_region-Chosen_example :
    Chosen list_text city.preferred_server region_a.wireguard_servers
      (preferred_server_in_region list_text city region_a)
preferred_server_in_region-Chosen_example =
    preferred_server_in_region-Chosen list_text city region_a
