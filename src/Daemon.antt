-- ===== src/Daemon.antt =====
-- cmd/piaproxyd/main.go: the cities that the daemon runs, and its settings.
pub mod Cities
pub mod Dashboard
pub mod Startup
pub mod Shutdown
use piaproxy.Base.{
  ℕ, ◌+◌, ◌==◌, ◌||◌, Bool, true, false, Option, none, some, List, [], ◌∷◌, ◌++◌, if◌then◌else◌,
  length, Bytes, codes, str_eq,
}
use piaproxy.Base.Int.{ℤ, pos, ◌+ℤ◌}
use piaproxy.Net.{join_host_port}
use piaproxy.Net.Decimal.{itoa, atoi}
use piaproxy.Pia.Regions.{ServerEndpoint, Region}
use piaproxy.Tunnel.{CityConfig}
use piaproxy.Tunnel.Monitor.{cut}

-- strings.TrimSpace and strings.ToLower.
pub record NameText : Type 0 where
  pub trim_space : Bytes → Bytes
  pub to_lower : Bytes → Bytes

-- `envOr`, with the value of the variable; os.Getenv is empty for none.
unfoldable pub env_or : Bytes → Bytes → Bytes
env_or value default = if str_eq value [] then default else value

-- `envOrInt`.
unfoldable pub env_or_int : Bytes → ℤ → ℤ
env_or_int value default =
    if str_eq value [] then default else elim (atoi value) [ none ↦ default | some n ↦ n ]

abbrev no_server : ServerEndpoint
no_server = record { ip = []; cn = []; port = pos 0 }

abbrev city : Bytes → Bytes → CityConfig
city name region = record {
  city = name;
  region = region;
  listen = [];
  preferred_server = no_server;
}

abbrev pub default_cities : List CityConfig
default_cities =
    city (codes "Vancouver") (codes "ca_vancouver")
    ∷ city (codes "Seattle") (codes "us_seattle")
    ∷ city (codes "Portland") (codes "us_oregon-pf")
    ∷ city (codes "San Francisco") (codes "us_silicon_valley")
    ∷ city (codes "Los Angeles") (codes "us_california")
    ∷ city (codes "Denver") (codes "us_denver")
    ∷ city (codes "Dallas") (codes "us_south_west")
    ∷ city (codes "Houston") (codes "us_houston")
    ∷ city (codes "Chicago") (codes "us_chicago")
    ∷ city (codes "Atlanta") (codes "us_atlanta")
    ∷ city (codes "NYC") (codes "us_new_york_city")
    ∷ city (codes "Miami") (codes "us_florida")
    ∷ city (codes "London") (codes "uk")
    ∷ city (codes "Paris") (codes "france")
    ∷ city (codes "Mumbai") (codes "in")
    ∷ city (codes "Seoul") (codes "kr_south_korea-pf")
    ∷ city (codes "Tokyo") (codes "japan")
    ∷ city (codes "Beijing") (codes "china")
    ∷ city (codes "Singapore") (codes "sg")
    ∷ city (codes "Sydney") (codes "aus")
    ∷ city (codes "Melbourne") (codes "aus_melbourne")
    ∷ []

-- `strings.Split(raw, sep)` for a separator of one byte.
unfoldable pub split_on : ℕ → Bytes → List Bytes
split_on sep [] = [] ∷ []
split_on sep (c ∷ cs) =
    let rest = split_on sep cs in
    if c == sep then [] ∷ rest else elim rest [ [] ↦ (c ∷ []) ∷ [] | l ∷ ls ↦ (c ∷ l) ∷ ls ]

-- What an entry of PIA_REGIONS says: a name, a region, and a port if there is one that Atoi reads.
pub record Entry : Type 0 where
  pub name : Bytes
  pub region : Bytes
  pub port : Option ℤ

abbrev pub listen_at : Bytes → ℤ → Bytes
listen_at bind_addr port = join_host_port bind_addr (itoa port)

module _ (bind_addr : Bytes) (base_port : ℤ) where
  -- The configurations of the entries that were read; `n` of them stand before.
  unfoldable pub configure : ℕ → List Entry → List CityConfig
  configure n [] = []
  configure n (e ∷ es) =
      record {
        city = e.name;
        region = e.region;
        listen = listen_at bind_addr (elim e.port [ none ↦ base_port +ℤ pos n | some port ↦ port ]);
        preferred_server = no_server;
      }
      ∷ configure (n + 1) es

  unfoldable pub number_cities : ℕ → List CityConfig → List CityConfig
  number_cities i [] = []
  number_cities i (c ∷ cs) =
      record c { listen = listen_at bind_addr (base_port +ℤ pos i) } ∷ number_cities (i + 1) cs

module _ (text : NameText) where
  abbrev entry_of : Bytes → Bytes → Option (Bytes × Bytes) → Entry
  entry_of name rest none = record {
    name = text.trim_space name;
    region = text.trim_space rest;
    port = none;
  }
  entry_of name rest (some (region, port)) = record {
    name = text.trim_space name;
    region = text.trim_space region;
    port = atoi port;
  }

  abbrev cut_entry : Option (Bytes × Bytes) → Option Entry
  cut_entry none = none
  cut_entry (some (name, rest)) = some (entry_of name rest (cut b':' rest))

  -- One round of the loop over PIA_REGIONS, up to the choice of the port; `none` goes on with the
  -- next entry.
  unfoldable pub read_entry : Bytes → Option Entry
  read_entry entry =
      let trimmed = text.trim_space entry in
      if str_eq trimmed [] then none else cut_entry (cut b'=' trimmed)

  unfoldable pub read_entries : List Bytes → List Entry
  read_entries [] = []
  read_entries (e ∷ es) = elim (read_entry e) [
    | none ↦ read_entries es
    | some entry ↦ entry ∷ read_entries es
  ]

  -- `buildCityList`, with the value of PIA_REGIONS.
  unfoldable pub build_city_list : Bytes → ℤ → Bytes → List CityConfig
  build_city_list bind_addr base_port raw =
      if str_eq raw []
      then number_cities bind_addr base_port 0 default_cities
      else configure bind_addr base_port 0 (read_entries (split_on b',' raw))

  -- Whether `known` has the region of a city.
  unfoldable pub is_known : List Region → Bytes → Bool
  is_known [] region = false
  is_known (r ∷ rs) region =
      str_eq (text.to_lower r.id) (text.to_lower region) || is_known rs region

  -- `filterUnknownRegions`.
  unfoldable pub filter_unknown_regions : List CityConfig → List Region → List CityConfig
  filter_unknown_regions [] regions = []
  filter_unknown_regions (c ∷ cs) regions =
      let rest = filter_unknown_regions cs regions in
      if is_known regions c.region then c ∷ rest else rest
