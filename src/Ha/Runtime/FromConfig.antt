-- ===== src/Ha/Runtime/FromConfig.antt =====
-- `impl TryFrom<&Config> for HaRuntimeConfig` of src/gruezi/ha.rs on validated configurations.
use gruezi.Base.{ℕ, ◌≤◌, ◌<◌, ◌≡◌, inl, inr, refl, sym, subst, ◌∙◌, Option, none, some}
use gruezi.Base.Result.{ok}
use gruezi.Base.Word.{IsU64}
use gruezi.Config.{Config, ha, HaAuthMode, none_mode, shared_key, trimmed, from_yaml_str}
use gruezi.Config.Valid.{IsValid, IsValidHa, IsPresent, IsAuth, ha-ne-kv, from_yaml_str_iff}
use gruezi.Ha.Runtime.{
  HaAuth, none_auth, shared, HaRuntimeConfig, runtime_from, runtime_in, runtime_auth, runtime_of,
  next_advert_delay, advert_interval,
}
use gruezi.Ha.Runtime.Timers.{next_advert_delay_bounds}
use gruezi.Text.{Text, trim}

-- What the conversion keeps of the configuration.
pub record IsFrom (c : Config) (r : HaRuntimeConfig) : Type 0 where
  pub node_id : trimmed c.node.id ≡ some r.node_id
  pub peer : trimmed c.ha_config.peer ≡ some r.peer
  pub group_id : r.group_id ≡ c.ha_config.group_id
  pub protocol_version : r.protocol_version ≡ c.ha_config.protocol_version
  pub priority : r.priority ≡ c.ha_config.priority
  pub preempt : r.preempt ≡ c.ha_config.preempt
  pub interval : r.advert_interval_ms ≡ c.ha_config.advert_interval_ms
  pub dead_factor : r.dead_factor ≡ c.ha_config.dead_factor
  pub hold_down : r.hold_down_ms ≡ c.ha_config.hold_down_ms
  pub jitter : r.jitter_ms ≡ c.ha_config.jitter_ms
  pub addresses : r.addresses ≡ c.ha_config.addresses

IsPresent-some : (o : Option Text) → IsPresent o → (t : Text) × (trimmed o ≡ some t)
unfolding trimmed
IsPresent-some none v = absurd v
IsPresent-some (some s) v = (trim s, rw v refl)

IsAuth-ok :
    (m : HaAuthMode) (key : Option Text) → IsAuth m key → (a : HaAuth) × (runtime_auth m key ≡ ok a)
unfolding runtime_auth
IsAuth-ok none_mode key v = (none_auth, refl)
IsAuth-ok shared_key key v = let (t, e) = IsPresent-some key v in (shared t, rw e refl)

runtime_in-ok :
    (c : Config) → IsValidHa c → (r : HaRuntimeConfig) × (runtime_in ha c ≡ ok r) × IsFrom c r
unfolding runtime_in
runtime_in-ok c v =
    let (n, en) = IsPresent-some c.node.id v.node_id in
    let (p, ep) = IsPresent-some c.ha_config.peer v.peer in
    let (a, ea) = IsAuth-ok c.ha_config.auth.mode c.ha_config.auth.key v.auth in
    (
      runtime_of c n p a,
      rw (en, ep, ea) refl,
      record {
        node_id = en;
        peer = ep;
        group_id = refl;
        protocol_version = refl;
        priority = refl;
        preempt = refl;
        interval = refl;
        dead_factor = refl;
        hold_down = refl;
        jitter = refl;
        addresses = refl;
      },
    )

mode-ha : (c : Config) → c.mode ≡ ha → IsValid c → IsValidHa c
mode-ha c e (inl v) = v.1
mode-ha c e (inr v) = absurd (ha-ne-kv (sym e ∙ v.0))

-- A configuration that was loaded in HA mode, with an interval that is a u64, gives a runtime
-- configuration, which keeps its trimmed node id and peer, its group, timers, priority and
-- addresses, and whose delay before every advertisement is positive and at most the interval.
pub runtime_from-loaded :
    (from_str : Text → Option Config) (input : Text) (c : Config)
    → from_yaml_str from_str input ≡ ok c
    → c.mode ≡ ha
    → IsU64 c.ha_config.advert_interval_ms
    → (r : HaRuntimeConfig) × (runtime_from c ≡ ok r)
      × IsFrom c r
      × ((sequence : ℕ)
          → (0 < next_advert_delay r sequence) × (next_advert_delay r sequence ≤ advert_interval r))
unfolding runtime_from
runtime_from-loaded from_str input c loaded mode u =
    let valid = mode-ha c mode ((from_yaml_str_iff from_str input c).0 loaded).1 in
    let (r, made, kept) = runtime_in-ok c valid in
    (
      r,
      rw mode made,
      kept,
      λ sequence.
          let b =
            next_advert_delay_bounds r sequence (subst IsU64 (sym kept.interval) u)
              (rw (kept.jitter, kept.interval) valid.jitter) in
          (b.0, b.2),
    )
