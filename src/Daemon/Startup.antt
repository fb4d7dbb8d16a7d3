-- ===== src/Daemon/Startup.antt =====
-- The function main of cmd/piaproxyd/main.go, up to the proxies that it runs.
pub mod Ready
use piaproxy.Base.{
  ℕ, Bool, true, false, ◌||◌, Option, none, some, List, [], ◌∷◌, if◌then◌else◌, map, Bytes, codes,
  str_eq,
}
use piaproxy.Base.Int.{pos}
use piaproxy.Base.Result.{Result, ok, err}
use piaproxy.Pia.Http.{PiaError}
use piaproxy.Pia.Regions.{Region}
use piaproxy.Pia.Client.{PiaClient, Api, Pia, token, regions}
use piaproxy.Pia.Certificate.{CertError}
use piaproxy.Socks.Listener.{SocksOpts}
use piaproxy.Tunnel.{Floats, CityConfig}
use piaproxy.Proxy.{Proxy, launch}
use piaproxy.Daemon.{NameText, env_or, env_or_int, build_city_list, filter_unknown_regions}

-- The environment variables that main reads; one that is not set is empty.
pub record Environment : Type 0 where
  pub pia_user : Bytes
  pub pia_pwd : Bytes
  pub pia_cert_file : Bytes
  pub control_addr : Bytes
  pub bind_addr : Bytes
  pub base_port : Bytes
  pub pia_regions : Bytes

-- The calls of log.Fatal.
pub data Fatal : Type 0 where
  credentials_missing : Fatal
  cert_unreadable : Bytes → CertError → Fatal
  no_cities : Fatal
  auth_failed : PiaError → Fatal
  server_list_failed : PiaError → Fatal
  no_known_cities : Fatal

-- `NewPIAClient`, whose answers have not been asked for yet.
unfoldable pub new_pia_client : Bytes → Bytes → Pia
new_pia_client username password = record {
  client = record {
    username = username;
    password = password;
    token = [];
    token_acquired_at = none;
    regions = none;
  };
  token_calls = 0;
  list_calls = 0;
  add_key_calls = 0;
  key_calls = 0;
  random_calls = 0;
}

abbrev pub is_empty : {A : Type 0} → List A → Bool
is_empty [] = true
is_empty (x ∷ xs) = false

module _ (text : NameText) (api : Api) where
  abbrev pub with_regions :
      List CityConfig → Result PiaError (List Region) × Pia → Result Fatal (List CityConfig) × Pia
  with_regions cities (err e, p) = (err (server_list_failed e), p)
  with_regions cities (ok rs, p) =
      let known = filter_unknown_regions text cities rs in
      if is_empty known then (err no_known_cities, p) else (ok known, p)

  abbrev pub with_token :
      List CityConfig → Result PiaError Bytes × Pia → Result Fatal (List CityConfig) × Pia
  with_token cities (err e, p) = (err (auth_failed e), p)
  with_token cities (ok _, p) = with_regions cities (regions api p)

  -- The cities of the environment, checked against the regions that the client is told of.
  unfoldable pub warm_up : List CityConfig → Pia → Result Fatal (List CityConfig) × Pia
  warm_up cities p = if is_empty cities then (err no_cities, p) else with_token cities (token api p)

module _ {C : Type 0} (text : NameText) (api : Api) where
  abbrev pub with_cert : Environment → Result CertError C → Result Fatal (List CityConfig) × Pia
  with_cert env (err e) = (
    err (cert_unreadable (env_or env.pia_cert_file (codes "ca.rsa.4096.crt")) e),
    new_pia_client env.pia_user env.pia_pwd,
  )
  with_cert env (ok _) =
      warm_up text api
        (build_city_list text (env_or env.bind_addr (codes "127.0.0.1"))
          (env_or_int env.base_port (pos 9091)) env.pia_regions)
        (new_pia_client env.pia_user env.pia_pwd)

  -- main up to the list of cities, with what LoadCertFromFile returns for a path.
  unfoldable pub start_up :
      (Bytes → Result CertError C) → Environment → Result Fatal (List CityConfig) × Pia
  start_up load env =
      if str_eq env.pia_user [] || str_eq env.pia_pwd []
      then (err credentials_missing, new_pia_client env.pia_user env.pia_pwd)
      else with_cert env (load (env_or env.pia_cert_file (codes "ca.rsa.4096.crt")))

-- main sets none of the options of a proxy.
abbrev pub no_opts : SocksOpts
no_opts = record { username = []; password = []; dns_resolver_ip = none }

-- The goroutines of main: a proxy that runs for each city.
unfoldable pub launch_all : {F : Type 0} → Floats F → List CityConfig → List (Proxy F)
launch_all floats cities = map (λ c. launch floats c no_opts) cities
