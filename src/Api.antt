-- ===== src/Api.antt =====
-- The management API of src/gruezi/api.rs, and its client in src/gruezi/status.rs. A request that
-- reaches the server is its path; what the HTTP library does between the two is an argument of the
-- client.
pub mod Shown
pub mod Endpoint
pub mod Shows
use gruezi.Base.{
  ℕ, Bool, ◌||◌, Option, none, some, List, [], ◌∷◌, ◌++◌, reverse, ◌==◌, if◌then◌else◌,
}
use gruezi.Base.Result.{Result, ok, err}
use gruezi.Config.{default_api_port}
use gruezi.Text.{Text, codes, text_eq, starts_with}
use gruezi.Text.Decimal.{display}
use gruezi.Ha.Loop.{
  Effect, published, address_spawned, hook_spawned, datagram, address_applied, hook_run,
}
use gruezi.Ha.Runtime.{HaRuntimeConfig}
use gruezi.Ha.Status.{HaStatus, new_status}

pub record StatusResponse : Type 0 where
  pub mode : Text
  pub ha_status : Option HaStatus

-- `StatusResponse::ha`
unfoldable pub status_response : HaStatus → StatusResponse
status_response status = record { mode = codes "ha"; ha_status = some status }

-- What the API answers to a request.
pub data Response : Type 0 where
  health_response : Text → Response
  served : StatusResponse → Response
  not_found : Response

-- The channel's value: the status that was published last, or the first one.
unfoldable pub borrow : HaStatus → List Effect → HaStatus
borrow status [] = status
borrow status (published last ∷ es) = borrow last es
borrow status (address_spawned _ _ _ ∷ es) = borrow status es
borrow status (hook_spawned _ _ _ ∷ es) = borrow status es
borrow status (datagram _ _ ∷ es) = borrow status es
borrow status (address_applied _ _ ∷ es) = borrow status es
borrow status (hook_run _ _ _ ∷ es) = borrow status es

-- `watch::channel(HaStatus::new(..))`
unfoldable pub first_status : HaRuntimeConfig → HaStatus
unfolding new_status
first_status r = new_status r.node_id r.group_id r.bind r.peer

-- `health` and `ha_status`
health : Response
health = health_response (codes "ok")

unfoldable pub serve_status : HaStatus → Response
unfolding status_response
serve_status status = served (status_response status)

-- The routes of `run_ha_api`, for `GET`, over the value of the channel.
unfoldable pub ha_api : HaStatus → Text → Response
unfolding health serve_status
ha_api status path =
    if text_eq path (codes "/health")
    then health
    else if text_eq path (codes "/status")
    then serve_status status
    else if text_eq path (codes "/ha/status")
    then serve_status status
    else not_found

-- `str::ends_with`
unfoldable pub ends_with : Text → Text → Bool
unfolding starts_with
ends_with s t = starts_with (reverse s) (reverse t)

skip_slashes : Text → Text
skip_slashes [] = []
skip_slashes (c ∷ cs) = if c == b'/' then skip_slashes cs else c ∷ cs

-- `trim_end_matches('/')`
unfoldable pub trim_end_slashes : Text → Text
unfolding skip_slashes
trim_end_slashes s = reverse (skip_slashes (reverse s))

-- `starts_with("http://") || starts_with("https://")`
unfoldable pub has_scheme : Text → Bool
unfolding starts_with
has_scheme s = starts_with s (codes "http://") || starts_with s (codes "https://")

-- `normalize_status_endpoint`
unfoldable pub normalize_status_endpoint : Text → Text
unfolding has_scheme ends_with trim_end_slashes
normalize_status_endpoint node =
    if has_scheme node
    then (if ends_with node (codes "/status")
        then node
        else trim_end_slashes node ++ codes "/status")
    else codes "http://" ++ (node ++ codes "/status")

-- `status_endpoint`
unfoldable pub status_endpoint : Option Text → Text
unfolding normalize_status_endpoint display
status_endpoint none = codes "http://127.0.0.1:" ++ (display default_api_port ++ codes "/status")
status_endpoint (some node) = normalize_status_endpoint node

-- What the HTTP client gives for a `GET` of a URL: no answer, an error status, or a body.
pub data Answer : Type 0 where
  no_answer : Answer
  error_status : ℕ → Answer
  body : Text → Answer

pub data FetchError : Type 0 where
  query_failed endpoint_error decode_failed : Text → FetchError

decoded : (Text → Option StatusResponse) → Text → Text → Result FetchError StatusResponse
decoded parse endpoint text = elim (parse text) [
  | none ↦ err (decode_failed endpoint)
  | some response ↦ ok response
]

answered : (Text → Option StatusResponse) → Text → Answer → Result FetchError StatusResponse
unfolding decoded
answered parse endpoint no_answer = err (query_failed endpoint)
answered parse endpoint (error_status code) = err (endpoint_error endpoint)
answered parse endpoint (body text) = decoded parse endpoint text

-- `fetch_status`; `get` is the request, and `parse` is `json`.
unfoldable pub fetch_status :
    (Text → Answer)
    → (Text → Option StatusResponse)
    → Option Text
    → Result FetchError StatusResponse
unfolding answered status_endpoint
fetch_status get parse node =
    let endpoint = status_endpoint node in answered parse endpoint (get endpoint)
