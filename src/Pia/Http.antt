-- ===== src/Pia/Http.antt =====
-- The answers of the PIA endpoints and the errors made of them: RateLimitError, AuthError,
-- parseRetryAfter, and the tests of the status code.
use piaproxy.Base.{
  ℕ, suc, ◌*◌, ◌-◌, ◌%◌, ◌^◌, ◌==◌, ◌||◌, Bool, true, false, Option, none, some, [], if◌then◌else◌,
  ltb, leb, take, Bytes, str_eq,
}
use piaproxy.Base.Int.{ℤ, pos, negsuc}
use piaproxy.Base.Result.{Result, ok, err}
use piaproxy.Base.Time.{second}
use piaproxy.Net.{NetError}
use piaproxy.Net.Decimal.{atoi}

-- The field Endpoint of the errors.
pub data Endpoint : Type 0 where
  token_endpoint add_key_endpoint : Endpoint

pub record RateLimitError : Type 0 where
  pub endpoint : Endpoint
  pub status : Bytes
  pub body : Bytes
  -- In nanoseconds; 0 where the header is absent or unreadable.
  pub retry_after : ℤ

pub record AuthError : Type 0 where
  pub endpoint : Endpoint
  pub status : Bytes
  pub body : Bytes

pub data PiaError : Type 0 where
  rate_limited : RateLimitError → PiaError
  auth_rejected : AuthError → PiaError
  -- client.Do failed, or the body could not be read.
  transport : NetError → PiaError
  -- Another status: the status line and the front of the body.
  bad_status : Bytes → Bytes → PiaError
  -- Messages of this file; `index_panic` is a panic of Go, for an index past the servers.
  token_undecodable token_empty list_format list_undecodable port_missing : PiaError
  add_key_undecodable status_not_ok server_ip_mismatch peer_ip_invalid dns_ip_invalid : PiaError
  no_servers key_generation random_source index_panic : PiaError
  region_not_found : Bytes → PiaError

-- `errors.As` on an error that this file returns.
unfoldable pub is_auth_error : PiaError → Bool
is_auth_error (auth_rejected _) = true
is_auth_error _ = false

unfoldable pub is_rate_limit_error : PiaError → Bool
is_rate_limit_error (rate_limited _) = true
is_rate_limit_error _ = false

-- A response: the body up to an error of reading it, and the header Retry-After.
pub record HttpReply : Type 0 where
  pub status_code : ℕ
  pub status : Bytes
  pub body : Bytes
  pub body_error : Option NetError
  pub retry_after : Bytes

-- strings.TrimSpace, and http.ParseTime as the time from now in nanoseconds.
pub record HeaderText : Type 0 where
  pub trim_space : Bytes → Bytes
  pub time_until : Bytes → Option ℤ

-- `time.Duration(secs) * time.Second` is an int64 product; `secs` is positive.
abbrev wrap_duration : ℕ → ℤ
wrap_duration n =
    let low = n % 2 ^ 64 in if ltb low (2 ^ 63) then pos low else negsuc (2 ^ 64 - low - 1)

abbrev http_date : Option ℤ → ℤ
http_date (some (pos (suc d))) = pos (suc d)
http_date _ = pos 0

abbrev positive : Option ℤ → Option ℕ
positive (some (pos (suc n))) = some (suc n)
positive _ = none

unfoldable pub parse_retry_after : HeaderText → Bytes → ℤ
parse_retry_after text header =
    let h = text.trim_space header in
    if str_eq h [] then pos 0 else elim (positive (atoi h)) [
      | some secs ↦ wrap_duration (secs * second)
      | none ↦ http_date (text.time_until h)
    ]

-- `io.ReadAll(io.LimitReader(resp.Body, 512))`.
abbrev pub error_body : HttpReply → Bytes
error_body r = take 512 r.body

-- The tests of the status code in fetchAuthToken and registerWireGuardKey.
unfoldable pub check_status : HeaderText → Endpoint → HttpReply → Result PiaError HttpReply
check_status text endpoint r =
    if r.status_code == 429
    then err (
        rate_limited (record {
          endpoint = endpoint;
          status = r.status;
          body = error_body r;
          retry_after = parse_retry_after text r.retry_after;
        }))
    else if r.status_code == 401 || r.status_code == 403
    then err
        (auth_rejected (record { endpoint = endpoint; status = r.status; body = error_body r }))
    else if ltb r.status_code 200 || leb 300 r.status_code
    then err (bad_status r.status (error_body r))
    else ok r
