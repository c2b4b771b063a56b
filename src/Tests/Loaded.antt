-- ===== src/Tests/Loaded.antt =====
-- The theorems on the configuration, applied to one in HA mode.
use gruezi.Base.{ℕ, ◌≡◌, ◌↔◌, ◌<◌, ◌≤◌, inl, refl, Option, some, [], ◌∷◌, arith}
use gruezi.Base.Result.{ok}
use gruezi.Text.{Text, codes, is_blank}
use gruezi.Config.{Config, ha, default_ha, default_kv, from_yaml_str, validate}
use gruezi.Config.Valid.{IsValid, validate_iff, from_yaml_str_iff}
use gruezi.Ha.Runtime.{HaRuntimeConfig, runtime_from, next_advert_delay, advert_interval}
use gruezi.Ha.Runtime.FromConfig.{IsFrom, runtime_from-loaded}

abbrev config_a : Config
config_a = record {
  mode = ha;
  node = record { id = some (codes "a"); listen = [] };
  ha_config = record default_ha {
    interface = codes "eth0";
    addresses = codes "10.0.0.9/24" ∷ [];
    peer = some (codes "10.0.0.2:9375");
    group_id = codes "g";
  };
  kv_config = default_kv;
}

-- A parser that reads every text as that configuration.
abbrev pub from_str : Text → Option Config
from_str input = some config_a

config_a-IsValid : IsValid config_a
unfolding default_ha is_blank
config_a-IsValid = inl (
  refl,
  record {
    node_id = refl;
    interface = refl;
    group_id = refl;
    has_address = refl;
    addresses = refl;
    peer = refl;
    priority = omega arith;
    interval = omega arith;
    version = omega arith;
    dead_factor = omega arith;
    jitter = omega arith;
    timeout = omega arith;
    on_promote = tt;
    on_demote = tt;
    on_backup = tt;
    on_fault = tt;
    auth = refl;
  },
)

validate_iff_example : (validate config_a ≡ ok tt) ↔ IsValid config_a
validate_iff_example = validate_iff config_a

config_a_loaded :
    (from_yaml_str from_str (codes "mode: ha") ≡ ok config_a)
    ↔ ((from_str (codes "mode: ha") ≡ some config_a) × IsValid config_a)
config_a_loaded = from_yaml_str_iff from_str (codes "mode: ha") config_a

runtime_from-loaded_example :
    (r : HaRuntimeConfig) × (runtime_from config_a ≡ ok r)
    × IsFrom config_a r
    × ((sequence : ℕ)
        → (0 < next_advert_delay r sequence) × (next_advert_delay r sequence ≤ advert_interval r))
unfolding default_ha
runtime_from-loaded_example =
    runtime_from-loaded from_str (codes "mode: ha") config_a
      (config_a_loaded.1 (refl, config_a-IsValid)) refl (omega arith)
