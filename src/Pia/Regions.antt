-- ===== src/Pia/Regions.antt =====
-- The region list: fetchServerList, and the search of FindRegion.
pub mod Ports
pub mod Catalog
pub mod Search
use piaproxy.Base.{
  ℕ, ◌==◌, ◌&&◌, ◌||◌, Bool, true, false, Option, none, some, List, [], ◌∷◌, if◌then◌else◌, ltb,
  leb, map, Bytes, codes,
}
use piaproxy.Base.Int.{ℤ, pos, negsuc}
use piaproxy.Base.Result.{Result, ok, err, or_err, ◌>>=◌}
use piaproxy.Net.{NetError}
use piaproxy.Pia.Http.{
  PiaError, HttpReply, transport, bad_status, list_format, list_undecodable, port_missing,
  region_not_found,
}

pub record ServerEndpoint : Type 0 where
  pub ip : Bytes
  pub cn : Bytes
  pub port : ℤ

pub record Region : Type 0 where
  pub id : Bytes
  pub name : Bytes
  pub country : Bytes
  pub dns : Bytes
  pub port_forward : Bool
  pub geo : Bool
  pub offline : Bool
  pub wireguard_servers : List ServerEndpoint

-- The JSON document as `root` holds it.
pub record Group : Type 0 where
  pub name : Bytes
  pub ports : List ℤ

pub record WireServer : Type 0 where
  pub ip : Bytes
  pub cn : Bytes

pub record RawRegion : Type 0 where
  pub id : Bytes
  pub name : Bytes
  pub country : Bytes
  pub dns : Bytes
  pub port_forward : Bool
  pub geo : Bool
  pub offline : Bool
  pub servers : List WireServer

pub record Root : Type 0 where
  pub groups : List Group
  pub regions : List RawRegion

-- What is used of other packages: strings.EqualFold and json.Unmarshal of the document.
pub record ListText : Type 0 where
  pub equal_fold : Bytes → Bytes → Bool
  pub decode_root : Bytes → Option Root

-- `body[:newline]`, if there is a newline.
unfoldable pub first_line : Bytes → Option Bytes
first_line [] = none
first_line (b ∷ bs) =
    if b == b'\n' then some [] else elim (first_line bs) [ none ↦ none | some l ↦ some (b ∷ l) ]

module _ (text : ListText) where
  abbrev first_port : List ℤ → ℤ → ℤ
  first_port [] rest = rest
  first_port (p ∷ _) rest = p

  abbrev is_nonempty : List ℤ → Bool
  is_nonempty [] = false
  is_nonempty (_ ∷ _) = true

  -- The loop over the groups; -1 where none serves.
  unfoldable pub wireguard_port : List Group → ℤ
  wireguard_port [] = negsuc 0
  wireguard_port (g ∷ gs) =
      if text.equal_fold g.name (codes "WireGuard") && is_nonempty g.ports
      then first_port g.ports (negsuc 0)
      else wireguard_port gs

  abbrev pub endpoint_of : ℤ → WireServer → ServerEndpoint
  endpoint_of port s = record { ip = s.ip; cn = s.cn; port = port }

  abbrev pub region_of : ℤ → RawRegion → Region
  region_of port r = record {
    id = r.id;
    name = r.name;
    country = r.country;
    dns = r.dns;
    port_forward = r.port_forward;
    geo = r.geo;
    offline = r.offline;
    wireguard_servers = map (endpoint_of port) r.servers;
  }

  abbrev is_minus_one : ℤ → Bool
  is_minus_one (pos n) = false
  is_minus_one (negsuc n) = n == 0

  abbrev regions_of : Root → Result PiaError (List Region)
  regions_of root =
      let port = wireguard_port root.groups in
      if is_minus_one port then err port_missing else ok (map (region_of port) root.regions)

  abbrev read_list : HttpReply → Result PiaError (List Region)
  read_list r = elim r.body_error [
    | some e ↦ err (transport e)
    | none ↦ do
      json_bytes ← or_err (first_line r.body) list_format
      root ← or_err (text.decode_root json_bytes) list_undecodable
      regions_of root
  ]

  -- What the request for the list returned; the whole body is read.
  unfoldable pub fetch_server_list : Result NetError HttpReply → Result PiaError (List Region)
  fetch_server_list (err e) = err (transport e)
  fetch_server_list (ok r) =
      if ltb r.status_code 200 || leb 300 r.status_code
      then err (bad_status r.status [])
      else read_list r

  -- The loop of FindRegion.
  unfoldable pub search_region : Bytes → List Region → Option Region
  search_region id [] = none
  search_region id (r ∷ rs) = if text.equal_fold r.id id then some r else search_region id rs

  unfoldable pub find_in : Bytes → Result PiaError (List Region) → Result PiaError Region
  find_in id (err e) = err e
  find_in id (ok regions) = or_err (search_region id regions) (region_not_found id)
