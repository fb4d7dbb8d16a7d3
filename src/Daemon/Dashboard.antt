-- ===== src/Daemon/Dashboard.antt =====
-- cmd/piaproxyd/status.go: what the control server answers.
pub mod Counts
use piaproxy.Base.{
  ℕ, ◌+◌, ◌/◌, Bool, true, false, Option, none, some, List, [], ◌∷◌, ◌++◌, if◌then◌else◌, not,
  Bytes, codes, length, str_eq, ltb, ◌==◌, ◌||◌, ◌&&◌,
}
use piaproxy.Base.Time.{second, since}
use piaproxy.Net.{IpText}
use piaproxy.Pia.Client.{PiaClient}
use piaproxy.Tunnel.{Floats, State, up}
use piaproxy.Proxy.Status.{Status, Moments, snapshot}

-- `<` of two strings.
unfoldable pub str_lt : Bytes → Bytes → Bool
str_lt [] [] = false
str_lt [] (y ∷ ys) = true
str_lt (x ∷ xs) [] = false
str_lt (x ∷ xs) (y ∷ ys) = ltb x y || ((x == y) && str_lt xs ys)

abbrev pub by_city : {F : Type 0} → Status F → Status F → Bool
by_city a b = str_lt a.city b.city

abbrev pub is_up : State → Bool
is_up up = true
is_up _ = false

-- What a handler writes: http.NotFound, or a content type, that nothing is to be stored, and a body.
pub data Reply (B : Type 0) : Type 0 where
  not_found : Reply B
  no_store : Bytes → B → Reply B

-- `handleIndex`, with the embedded page.
unfoldable pub handle_index : Bytes → Bytes → Reply Bytes
handle_index page path =
    if not (str_eq path (codes "/"))
    then not_found
    else no_store (codes "text/html; charset=utf-8") page

pub record ApiPayload (F : Type 0) : Type 0 where
  pub now_ms : ℕ
  pub uptime_sec : ℕ
  pub proxy_count : ℕ
  pub up_count : ℕ
  pub proxies : List (Status F)

module _ {F : Type 0} where
  -- The loop of handleAPI: the statuses so far, and the number of those that are up. A proxy comes
  -- with the time and the moments of its snapshot.
  unfoldable pub collect :
      Floats F
      → IpText
      → Option PiaClient
      → List (ℕ × Moments F)
      → List (Status F)
      → ℕ
      → List (Status F) × ℕ
  collect floats net pia [] snaps count = (snaps, count)
  collect floats net pia ((now, m) ∷ ms) snaps count =
      let snap = snapshot floats net now pia m in
      collect floats net pia ms (snaps ++ snap ∷ []) (if is_up snap.state then count + 1 else count)

  -- `handleAPI`, with sort.Slice and the time when the server was made. The JSON encoder writes the
  -- payload.
  unfoldable pub handle_api :
      ((Status F → Status F → Bool) → List (Status F) → List (Status F))
      → Floats F
      → IpText
      → Option PiaClient
      → ℕ
      → ℕ
      → List (ℕ × Moments F)
      → Reply (ApiPayload F)
  handle_api sort floats net pia started now proxies =
      let (snaps, count) = collect floats net pia proxies [] 0 in
      no_store (codes "application/json; charset=utf-8") (record {
        now_ms = now / 1_000_000;
        uptime_sec = since now (some started) / second;
        proxy_count = length snaps;
        up_count = count;
        proxies = sort by_city snaps;
      })
