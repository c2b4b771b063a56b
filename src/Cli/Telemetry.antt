-- ===== src/Cli/Telemetry.antt =====
-- src/cli/telemetry.rs: the headers and the endpoint of the trace export, and when it is set up. The
-- environment, the exporter and the global subscriber are arguments; `feature` tells whether the
-- program is compiled with the feature `telemetry`.
pub mod Headers
use gruezi.Base.{
  false, true, ℕ, ◌+◌, Bool, not, ◌&&◌, Option, none, some, List, [], ◌∷◌, ◌++◌, map, drop, length,
  leb, ◌==◌, if◌then◌else◌,
}
use gruezi.Base.Result.{Result, ok, err, ◌>>=◌, ◌>>◌, bail_if, ok_or}
use gruezi.Base.Word.{Bytes}
use gruezi.Text.{text_eq, Text, codes, trim, is_blank, starts_with}
use gruezi.Api.{ends_with, has_scheme, trim_end_slashes}

-- `str::split` by a character
first_piece : ℕ → List Text → List Text
first_piece c [] = (c ∷ []) ∷ []
first_piece c (p ∷ ps) = (c ∷ p) ∷ ps

unfoldable pub split : ℕ → Text → List Text
unfolding first_piece
split sep [] = [] ∷ []
split sep (c ∷ cs) =
    let pieces = split sep cs in if c == sep then [] ∷ pieces else first_piece c pieces

-- `str::split_once` by a character
before_key : ℕ → Option (Text × Text) → Option (Text × Text)
before_key c none = none
before_key c (some (key, value)) = some (c ∷ key, value)

unfoldable pub split_once : ℕ → Text → Option (Text × Text)
unfolding before_key
split_once sep [] = none
split_once sep (c ∷ cs) =
    let rest = split_once sep cs in if c == sep then some ([], cs) else before_key c rest

-- `to_ascii_lowercase`
unfoldable pub to_ascii_lowercase : Text → Text
to_ascii_lowercase s = map (λ c. if leb b'A' c && leb c b'Z' then c + 32 else c) s

-- What `insert_bin` and `insert` of `MetadataMap` are called with.
pub data Header : Type 0 where
  binary_header : Text → Bytes → Header
  ascii_header : Text → Text → Header

pub data TelemetryError : Type 0 where
  not_key_value invalid_binary_name invalid_base64 invalid_name invalid_value : TelemetryError
  wrong_protocol exporter_failed subscriber_failed : TelemetryError

non_blank : List Text → List Text
unfolding is_blank
non_blank [] = []
non_blank (p ∷ ps) = let rest = non_blank ps in if is_blank p then rest else p ∷ rest

module _ (is_binary_key is_ascii_key is_ascii_value : Text → Bool)
    (decode_base64 : Text → Option Bytes) where
  -- The body of the loop, on a key and a value.
  parse_header : Text → Text → Result TelemetryError Header
  unfolding ends_with
  parse_header key value =
      if ends_with key (codes "-bin")
      then (do
        bail_if (not (is_binary_key key)) invalid_binary_name
        bytes ← ok_or (decode_base64 value) invalid_base64
        ok (binary_header key bytes))
      else do
        bail_if (not (is_ascii_key key)) invalid_name
        bail_if (not (is_ascii_value value)) invalid_value
        ok (ascii_header key value)

  parse_pair : Option (Text × Text) → Result TelemetryError Header
  unfolding parse_header to_ascii_lowercase trim
  parse_pair none = err not_key_value
  parse_pair (some (key, value)) = parse_header (to_ascii_lowercase (trim key)) (trim value)

  -- `MetadataMap` is a type `M` with an empty map and an insertion.
  module _ {M : Type 0} (new_map : M) (insert : Header → M → M) where
    -- The loop, on the pairs that are left and the map so far.
    parse_pairs : List Text → M → Result TelemetryError M
    unfolding parse_pair split_once
    parse_pairs [] metadata = ok metadata
    parse_pairs (p ∷ ps) metadata = do
      header ← parse_pair (split_once b'=' p)
      parse_pairs ps (insert header metadata)

    -- `parse_headers`
    unfoldable pub parse_headers : Text → Result TelemetryError M
    unfolding parse_pairs non_blank split
    parse_headers value = parse_pairs (non_blank (split b',' value)) new_map

-- `normalize_endpoint`
unfoldable pub normalize_endpoint : Text → Text
unfolding has_scheme trim_end_slashes
normalize_endpoint endpoint =
    if has_scheme endpoint then endpoint else codes "https://" ++ trim_end_slashes endpoint

-- The next item of an iterator
next_piece : List Text → Option Text
next_piece [] = none
next_piece (p ∷ ps) = some p

-- `str::strip_prefix`
unfoldable pub strip_prefix : Text → Text → Option Text
unfolding starts_with
strip_prefix s prefix = if starts_with s prefix then some (drop (length prefix) s) else none

authority_host : Option Text → Option Text
unfolding split next_piece
authority_host none = none
authority_host (some authority) = next_piece (split b':' authority)

address_host : Option Text → Option Text
unfolding authority_host split next_piece
address_host none = none
address_host (some address) = authority_host (next_piece (split b'/' address))

-- The host that the certificate of the collector is checked for.
unfoldable pub tls_domain : Text → Option Text
unfolding strip_prefix address_host
tls_domain endpoint = address_host (strip_prefix endpoint (codes "https://"))

-- `unwrap_or_else`, where the variable of the instance id is not set
instance_or : Text → Option Text → Text
instance_or generated none = generated
instance_or generated (some id) = id

-- What the exporter and its provider are built from.
pub record Exporter (M : Type 0) : Type 0 where
  pub endpoint : Text
  pub domain : Option Text
  pub headers : M
  pub instance_id : Text

-- The environment of `init`: the variables, an identifier that `Ulid` generates, whether the
-- exporter can be built, and whether no global subscriber is set yet.
pub record Environment : Type 0 where
  pub endpoint : Option Text
  pub protocol : Option Text
  pub headers : Option Text
  pub instance_id : Option Text
  pub generated_id : Text
  pub exporter_builds : Bool
  pub subscriber_free : Bool

-- `TELEMETRY_INIT` and `TRACER_PROVIDER`: is each of them set?
pub record TelemetryState : Type 0 where
  pub is_initialized : Bool
  pub has_provider : Bool

is_other_protocol : Option Text → Bool
unfolding text_eq
is_other_protocol none = false
is_other_protocol (some protocol) = not (text_eq protocol (codes "grpc"))

module _ (is_binary_key is_ascii_key is_ascii_value : Text → Bool)
    (decode_base64 : Text → Option Bytes) {M : Type 0} (new_map : M) (insert : Header → M → M) where
  -- The headers, where the variable is set.
  metadata : Option Text → Result TelemetryError M
  unfolding parse_headers
  metadata none = ok new_map
  metadata (some value) =
      parse_headers is_binary_key is_ascii_key is_ascii_value decode_base64 new_map insert value

  -- `init_tracer`
  unfoldable pub init_tracer : Environment → Text → Result TelemetryError (Exporter M)
  unfolding metadata normalize_endpoint is_other_protocol tls_domain instance_or
  init_tracer env endpoint = do
    bail_if (is_other_protocol env.protocol) wrong_protocol
    headers ← metadata env.headers
    bail_if (not env.exporter_builds) exporter_failed
    ok (record {
      endpoint = normalize_endpoint endpoint;
      domain = tls_domain (normalize_endpoint endpoint);
      headers = headers;
      instance_id = instance_or env.generated_id env.instance_id;
    })

  -- `init` with the feature, for the variable of the endpoint.
  init_export : Environment → Option Text → TelemetryState → Result TelemetryError TelemetryState
  unfolding init_tracer
  init_export env none s = do
    bail_if (not env.subscriber_free) subscriber_failed
    ok (record s { is_initialized = true })
  init_export env (some endpoint) s = do
    exporter ← init_tracer env endpoint
    bail_if (not env.subscriber_free) subscriber_failed
    ok (record { is_initialized = true; has_provider = true })

  -- `init`; the filters and the format of the log are left out.
  unfoldable pub init : Bool → Environment → TelemetryState → Result TelemetryError TelemetryState
  unfolding init_export
  init feature env s =
      if s.is_initialized
      then ok s
      else if feature
      then init_export env env.endpoint s
      else init_export env none s

-- `shutdown_tracer`
unfoldable pub shutdown_tracer : Bool → TelemetryState → Bool
shutdown_tracer feature s = feature && s.has_provider
