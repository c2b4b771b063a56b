-- ===== src/Config.antt =====
-- src/config.rs: the configuration, its defaults, and its validation. The YAML parser and the
-- file system are arguments of `from_yaml_str` and `from_path`.
pub mod Valid
use gruezi.Base.{
  ℕ, ◌≤◌, ◌≡◌, Bool, true, false, not, ◌||◌, Option, none, some, List, [], ◌∷◌, ltb, leb, ◌==◌,
  if◌then◌else◌, length, is_empty, any, is_some,
}
use gruezi.Base.Result.{Result, ok, err, ◌>>=◌, ◌>>◌, bail_if}
use gruezi.Text.{Text, codes, trim, is_blank}

pub data Mode : Type 0 where
  ha kv : Mode

pub data HaAuthMode : Type 0 where
  none_mode shared_key : HaAuthMode

pub data KvRole : Type 0 where
  voter witness learner : KvRole

pub record NodeConfig : Type 0 where
  pub id : Option Text
  pub listen : List Text

pub record HaAuthConfig : Type 0 where
  pub mode : HaAuthMode
  pub key : Option Text

pub record HaHooksConfig : Type 0 where
  pub on_promote : Option Text
  pub on_demote : Option Text
  pub on_backup : Option Text
  pub on_fault : Option Text
  pub timeout_ms : ℕ

pub record HaConfig : Type 0 where
  pub bind : Text
  pub interface : Text
  pub addresses : List Text
  pub peer : Option Text
  pub group_id : Text
  pub protocol_version : ℕ
  pub priority : ℕ
  pub preempt : Bool
  pub advert_interval_ms : ℕ
  pub dead_factor : ℕ
  pub hold_down_ms : ℕ
  pub jitter_ms : ℕ
  pub auth : HaAuthConfig
  pub hooks : HaHooksConfig

pub record KvConfig : Type 0 where
  pub role : KvRole
  pub listen_client : Text
  pub listen_peer : Text
  pub data_dir : Text
  pub initial_cluster : List Text

pub record Config : Type 0 where
  pub mode : Mode
  pub node : NodeConfig
  pub ha_config : HaConfig
  pub kv_config : KvConfig

-- `DEFAULT_HA_BIND`, `DEFAULT_API_PORT`, `DEFAULT_KV_CLIENT_LISTEN`, `DEFAULT_KV_PEER_LISTEN`
unfoldable pub default_ha_bind : Text
default_ha_bind = codes "0.0.0.0:9375"

abbrev pub default_api_port : ℕ
default_api_port = 9376

pub default_kv_client_listen : Text
default_kv_client_listen = codes "0.0.0.0:9376"

pub default_kv_peer_listen : Text
default_kv_peer_listen = codes "0.0.0.0:9377"

-- `impl Default`
pub default_node : NodeConfig
default_node = record { id = none; listen = [] }

pub default_auth : HaAuthConfig
default_auth = record { mode = none_mode; key = none }

pub default_timeout_ms : ℕ
default_timeout_ms = 5_000

pub default_hooks : HaHooksConfig
unfolding default_timeout_ms
default_hooks = record {
  on_promote = none;
  on_demote = none;
  on_backup = none;
  on_fault = none;
  timeout_ms = default_timeout_ms;
}

unfoldable pub default_ha : HaConfig
unfolding default_auth default_hooks
default_ha = record {
  bind = default_ha_bind;
  interface = [];
  addresses = [];
  peer = none;
  group_id = [];
  protocol_version = 1;
  priority = 100;
  preempt = false;
  advert_interval_ms = 1_000;
  dead_factor = 3;
  hold_down_ms = 3_000;
  jitter_ms = 100;
  auth = default_auth;
  hooks = default_hooks;
}

unfoldable pub default_kv : KvConfig
unfolding default_kv_client_listen default_kv_peer_listen
default_kv = record {
  role = voter;
  listen_client = default_kv_client_listen;
  listen_peer = default_kv_peer_listen;
  data_dir = [];
  initial_cluster = [];
}

-- The `bail!`s of the validation, in the order of the code.
pub data ConfigError : Type 0 where
  requires_node_id requires_interface requires_group_id : ConfigError
  requires_address empty_address requires_peer : ConfigError
  zero_priority zero_interval zero_version small_dead_factor large_jitter : ConfigError
  zero_hook_timeout : ConfigError
  -- The name of the field stands in the message.
  empty_hook_path : Text → ConfigError
  key_without_auth requires_key : ConfigError
  requires_data_dir small_cluster empty_member : ConfigError
  -- `from_yaml_str` and `from_path`: the input cannot be parsed, or the file cannot be read.
  not_yaml not_readable : ConfigError

-- `as_deref().map(str::trim).filter(|s| !s.is_empty())`
unfoldable pub trimmed : Option Text → Option Text
trimmed none = none
trimmed (some s) = if is_blank s then none else some (trim s)

-- `validate_hook_path`
validate_hook_path : Option Text → Text → Result ConfigError (Unit {0})
validate_hook_path none field_name = ok tt
validate_hook_path (some path) field_name = bail_if (is_blank path) (empty_hook_path field_name)

-- The match on `auth.mode` that ends `validate_ha`.
validate_auth : HaAuthMode → Option Text → Result ConfigError (Unit {0})
validate_auth none_mode key = bail_if (is_some key) key_without_auth
validate_auth shared_key key = bail_if (not (is_some (trimmed key))) requires_key

-- `Config::validate_ha`
validate_ha : Config → Result ConfigError (Unit {0})
unfolding validate_hook_path validate_auth
validate_ha c = do
  let h = c.ha_config
  bail_if (not (is_some (trimmed c.node.id))) requires_node_id
  bail_if (is_blank h.interface) requires_interface
  bail_if (is_blank h.group_id) requires_group_id
  bail_if (is_empty h.addresses) requires_address
  bail_if (any is_blank h.addresses) empty_address
  bail_if (not (is_some (trimmed h.peer))) requires_peer
  bail_if (h.priority == 0) zero_priority
  bail_if (h.advert_interval_ms == 0) zero_interval
  bail_if (h.protocol_version == 0) zero_version
  bail_if (ltb h.dead_factor 2) small_dead_factor
  bail_if (leb h.advert_interval_ms h.jitter_ms) large_jitter
  bail_if (h.hooks.timeout_ms == 0) zero_hook_timeout
  validate_hook_path h.hooks.on_promote (codes "ha.hooks.on_promote")
  validate_hook_path h.hooks.on_demote (codes "ha.hooks.on_demote")
  validate_hook_path h.hooks.on_backup (codes "ha.hooks.on_backup")
  validate_hook_path h.hooks.on_fault (codes "ha.hooks.on_fault")
  validate_auth h.auth.mode h.auth.key

-- `Config::validate_kv`
validate_kv : Config → Result ConfigError (Unit {0})
validate_kv c = do
  bail_if (is_blank c.kv_config.data_dir) requires_data_dir
  bail_if (ltb (length c.kv_config.initial_cluster) 3) small_cluster
  bail_if (any is_blank c.kv_config.initial_cluster) empty_member

validate_mode : Mode → Config → Result ConfigError (Unit {0})
unfolding validate_ha validate_kv
validate_mode ha c = validate_ha c
validate_mode kv c = validate_kv c

-- `Config::validate`
unfoldable pub validate : Config → Result ConfigError (Unit {0})
unfolding validate_mode
validate c = validate_mode c.mode c

-- The YAML parser: `none` where the text is no configuration.
module _ (from_str : Text → Option Config) where
  unfoldable parsed : Option Config → Result ConfigError Config
  parsed none = err not_yaml
  parsed (some c) = do validate c; ok c

  -- `Config::from_yaml_str`
  unfoldable pub from_yaml_str : Text → Result ConfigError Config
  unfolding parsed
  from_yaml_str input = parsed (from_str input)

  -- `Config::from_path`, on what reading the file gave.
  unfoldable pub from_path : Option Text → Result ConfigError Config
  unfolding from_yaml_str
  from_path none = err not_readable
  from_path (some raw) = from_yaml_str raw
