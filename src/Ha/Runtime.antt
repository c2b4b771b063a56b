-- ===== src/Ha/Runtime.antt =====
-- `HaAuth` and `HaRuntimeConfig` of src/gruezi/ha.rs: the validated configuration that the HA loop
-- runs on, its timers, and how it is made from a `Config`.
pub mod Timers
pub mod FromConfig
use gruezi.Base.{
  ℕ, ◌+◌, ◌-◌, ◌*◌, ◌%◌, ◌^◌, ◌≡◌, Bool, Option, none, some, List, if◌then◌else◌, ◌==◌,
}
use gruezi.Base.Duration.{from_millis, saturating_mul}
use gruezi.Base.Result.{Result, ok, err, ◌>>=◌, ok_or}
use gruezi.Text.{Text, codes}
use gruezi.Hooks.{HaHooks}
use gruezi.Config.{Config, Mode, ha, kv, HaAuthMode, none_mode, shared_key, HaAuthConfig, trimmed}

pub data HaAuth : Type 0 where
  none_auth : HaAuth
  shared : Text → HaAuth

pub record HaRuntimeConfig : Type 0 where
  pub node_id : Text
  pub group_id : Text
  pub bind : Text
  pub peer : Text
  pub interface : Text
  pub addresses : List Text
  pub protocol_version : ℕ
  pub priority : ℕ
  pub preempt : Bool
  pub advert_interval_ms : ℕ
  pub dead_factor : ℕ
  pub hold_down_ms : ℕ
  pub jitter_ms : ℕ
  pub auth : HaAuth
  pub hooks : HaHooks
  pub ip_command : Text
  pub arping_command : Text
  pub ndsend_command : Text

-- `advert_interval`
abbrev pub advert_interval : HaRuntimeConfig → ℕ
advert_interval r = from_millis r.advert_interval_ms

-- `dead_timeout`
abbrev pub dead_timeout : HaRuntimeConfig → ℕ
dead_timeout r = saturating_mul (advert_interval r) r.dead_factor

-- `hold_down`
abbrev pub hold_down : HaRuntimeConfig → ℕ
hold_down r = from_millis r.hold_down_ms

-- `jitter_for`; the sum wraps as a u64.
unfoldable pub jitter_for : HaRuntimeConfig → ℕ → ℕ
jitter_for r sequence =
    if r.jitter_ms == 0 then 0 else from_millis (sequence % ((r.jitter_ms + 1) % 2 ^ 64))

-- `next_advert_delay`; `saturating_sub` stops at 0, as `-` does here.
unfoldable pub next_advert_delay : HaRuntimeConfig → ℕ → ℕ
unfolding jitter_for
next_advert_delay r sequence = advert_interval r - jitter_for r sequence

-- `follower_deadline`
unfoldable pub follower_deadline : HaRuntimeConfig → ℕ → ℕ
follower_deadline r last_observed_at = last_observed_at + dead_timeout r + hold_down r

-- The `bail!`s of the conversion.
pub data RuntimeError : Type 0 where
  requires_mode_ha requires_node_id requires_peer requires_key : RuntimeError

unfoldable runtime_auth : HaAuthMode → Option Text → Result RuntimeError HaAuth
runtime_auth none_mode key = ok none_auth
runtime_auth shared_key key = ok_or (trimmed key) requires_key >>= λ k. ok (shared k)

-- The record that the conversion ends with.
abbrev runtime_of : Config → Text → Text → HaAuth → HaRuntimeConfig
runtime_of c node_id peer auth = record {
  node_id = node_id;
  group_id = c.ha_config.group_id;
  bind = c.ha_config.bind;
  peer = peer;
  interface = c.ha_config.interface;
  addresses = c.ha_config.addresses;
  protocol_version = c.ha_config.protocol_version;
  priority = c.ha_config.priority;
  preempt = c.ha_config.preempt;
  advert_interval_ms = c.ha_config.advert_interval_ms;
  dead_factor = c.ha_config.dead_factor;
  hold_down_ms = c.ha_config.hold_down_ms;
  jitter_ms = c.ha_config.jitter_ms;
  auth = auth;
  hooks = record {
    on_promote = c.ha_config.hooks.on_promote;
    on_demote = c.ha_config.hooks.on_demote;
    on_backup = c.ha_config.hooks.on_backup;
    on_fault = c.ha_config.hooks.on_fault;
    timeout_ms = c.ha_config.hooks.timeout_ms;
  };
  ip_command = codes "ip";
  arping_command = codes "arping";
  ndsend_command = codes "ndsend";
}

unfoldable runtime_in : Mode → Config → Result RuntimeError HaRuntimeConfig
unfolding runtime_auth
runtime_in kv c = err requires_mode_ha
runtime_in ha c = do
  node_id ← ok_or (trimmed c.node.id) requires_node_id
  peer ← ok_or (trimmed c.ha_config.peer) requires_peer
  auth ← runtime_auth c.ha_config.auth.mode c.ha_config.auth.key
  ok (runtime_of c node_id peer auth)

-- `impl TryFrom<&Config> for HaRuntimeConfig`
unfoldable pub runtime_from : Config → Result RuntimeError HaRuntimeConfig
unfolding runtime_in
runtime_from c = runtime_in c.mode c
