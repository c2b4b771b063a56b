-- ===== src/Config/Valid.antt =====
-- What `Config::validate` of src/config.rs accepts.
use gruezi.Base.{
  ◌≤◌, ◌<◌, ◌≡◌, ◌≢◌, ◌⊎◌, inl, inr, ◌↔◌, refl, sym, ap, subst, ◌∙◌, false, not, Option, none, some,
  is_some, arith, any, is_empty, length,
}
use gruezi.Base.Result.{ok, >>=-eq-ok}
use gruezi.Text.{Text, is_blank, codes}
use gruezi.Config.{
  Config, Mode, ha, kv, HaAuthMode, none_mode, shared_key, trimmed, validate, validate_ha,
  validate_kv, validate_auth, validate_hook_path, validate_mode, parsed, from_yaml_str,
}

-- Present, and not blank.
abbrev pub IsPresent : Option Text → Type 0
IsPresent none = ⊥
IsPresent (some s) = is_blank s ≡ false

-- Absent, or not blank.
abbrev pub IsOptional : Option Text → Type 0
IsOptional none = Unit {0}
IsOptional (some s) = is_blank s ≡ false

-- A key is given exactly if the mode wants one.
abbrev pub IsAuth : HaAuthMode → Option Text → Type 0
IsAuth none_mode key = key ≡ none
IsAuth shared_key key = IsPresent key

pub record IsValidHa (c : Config) : Type 0 where
  pub node_id : IsPresent c.node.id
  pub interface : is_blank c.ha_config.interface ≡ false
  pub group_id : is_blank c.ha_config.group_id ≡ false
  pub has_address : is_empty c.ha_config.addresses ≡ false
  pub addresses : any is_blank c.ha_config.addresses ≡ false
  pub peer : IsPresent c.ha_config.peer
  pub priority : 1 ≤ c.ha_config.priority
  pub interval : 1 ≤ c.ha_config.advert_interval_ms
  pub version : 1 ≤ c.ha_config.protocol_version
  pub dead_factor : 2 ≤ c.ha_config.dead_factor
  pub jitter : c.ha_config.jitter_ms < c.ha_config.advert_interval_ms
  pub timeout : 1 ≤ c.ha_config.hooks.timeout_ms
  pub on_promote : IsOptional c.ha_config.hooks.on_promote
  pub on_demote : IsOptional c.ha_config.hooks.on_demote
  pub on_backup : IsOptional c.ha_config.hooks.on_backup
  pub on_fault : IsOptional c.ha_config.hooks.on_fault
  pub auth : IsAuth c.ha_config.auth.mode c.ha_config.auth.key

pub record IsValidKv (c : Config) : Type 0 where
  pub data_dir : is_blank c.kv_config.data_dir ≡ false
  pub size : 3 ≤ length c.kv_config.initial_cluster
  pub members : any is_blank c.kv_config.initial_cluster ≡ false

abbrev pub IsValid : Config → Type 0
IsValid c = ((c.mode ≡ ha) × IsValidHa c) ⊎ ((c.mode ≡ kv) × IsValidKv c)

trimmed-some : (o : Option Text) → not (is_some (trimmed o)) ≡ false → IsPresent o
unfolding trimmed
trimmed-some none h = absurd (cc h)
trimmed-some (some s) h = ground arith

IsPresent-trimmed : (o : Option Text) → IsPresent o → not (is_some (trimmed o)) ≡ false
unfolding trimmed
IsPresent-trimmed none h = absurd h
IsPresent-trimmed (some s) h = rw h refl

kv_iff :
    (c : Config)
    → (validate_kv c ≡ ok tt) ↔ (
        (is_blank c.kv_config.data_dir ≡ false)
        × (3 ≤ length c.kv_config.initial_cluster)
        × (any is_blank c.kv_config.initial_cluster ≡ false))
unfolding validate_kv
kv_iff c = ground arith

ha_iff :
    (c : Config)
    → (validate_ha c ≡ ok tt) ↔ (
        (not (is_some (trimmed c.node.id)) ≡ false)
        × (is_blank c.ha_config.interface ≡ false)
        × (is_blank c.ha_config.group_id ≡ false)
        × (is_empty c.ha_config.addresses ≡ false)
        × (any is_blank c.ha_config.addresses ≡ false)
        × (not (is_some (trimmed c.ha_config.peer)) ≡ false)
        × (1 ≤ c.ha_config.priority)
        × (1 ≤ c.ha_config.advert_interval_ms)
        × (1 ≤ c.ha_config.protocol_version)
        × (2 ≤ c.ha_config.dead_factor)
        × (c.ha_config.jitter_ms < c.ha_config.advert_interval_ms)
        × (1 ≤ c.ha_config.hooks.timeout_ms)
        × (validate_hook_path c.ha_config.hooks.on_promote (codes "ha.hooks.on_promote") ≡ ok tt)
        × (validate_hook_path c.ha_config.hooks.on_demote (codes "ha.hooks.on_demote") ≡ ok tt)
        × (validate_hook_path c.ha_config.hooks.on_backup (codes "ha.hooks.on_backup") ≡ ok tt)
        × (validate_hook_path c.ha_config.hooks.on_fault (codes "ha.hooks.on_fault") ≡ ok tt)
        × (validate_auth c.ha_config.auth.mode c.ha_config.auth.key ≡ ok tt))
unfolding validate_ha
ha_iff c = ground arith

hook_iff : (o : Option Text) (name : Text) → (validate_hook_path o name ≡ ok tt) ↔ IsOptional o
unfolding validate_hook_path
hook_iff none name = (λ h. tt, λ v. refl)
hook_iff (some s) name = ground arith

IsAuth-iff : (m : HaAuthMode) (o : Option Text) → (validate_auth m o ≡ ok tt) ↔ IsAuth m o
unfolding validate_auth trimmed
IsAuth-iff none_mode none = (λ h. refl, λ v. refl)
IsAuth-iff none_mode (some s) = (λ h. absurd (cc h), λ v. absurd (cc v))
IsAuth-iff shared_key none = (λ h. absurd (cc h), λ v. absurd v)
IsAuth-iff shared_key (some s) = ground arith

ha-IsValidHa : (c : Config) → (validate_ha c ≡ ok tt) ↔ IsValidHa c
ha-IsValidHa c = (
  λ h.
      let (a1, a2, a3, a4, a5, a6, a7, a8, a9, b1, b2, b3, b4, b5, b6, b7, b8) = (ha_iff c).0 h in
      record {
        node_id = trimmed-some c.node.id a1;
        interface = a2;
        group_id = a3;
        has_address = a4;
        addresses = a5;
        peer = trimmed-some c.ha_config.peer a6;
        priority = a7;
        interval = a8;
        version = a9;
        dead_factor = b1;
        jitter = b2;
        timeout = b3;
        on_promote = (hook_iff _ _).0 b4;
        on_demote = (hook_iff _ _).0 b5;
        on_backup = (hook_iff _ _).0 b6;
        on_fault = (hook_iff _ _).0 b7;
        auth = (IsAuth-iff _ _).0 b8;
      },
  λ v. (ha_iff c).1 (
    IsPresent-trimmed c.node.id v.node_id,
    v.interface,
    v.group_id,
    v.has_address,
    v.addresses,
    IsPresent-trimmed c.ha_config.peer v.peer,
    v.priority,
    v.interval,
    v.version,
    v.dead_factor,
    v.jitter,
    v.timeout,
    (hook_iff _ _).1 v.on_promote,
    (hook_iff _ _).1 v.on_demote,
    (hook_iff _ _).1 v.on_backup,
    (hook_iff _ _).1 v.on_fault,
    (IsAuth-iff _ _).1 v.auth,
  ),
)

kv-IsValidKv : (c : Config) → (validate_kv c ≡ ok tt) ↔ IsValidKv c
kv-IsValidKv c = (
  λ h. let (d, n, m) = (kv_iff c).0 h in record { data_dir = d; size = n; members = m },
  λ v. (kv_iff c).1 (v.data_dir, v.size, v.members),
)

pub ha-ne-kv : ha ≢ kv
ha-ne-kv e = cc e

mode-IsValid :
    (m : Mode) (c : Config)
    → (validate_mode m c ≡ ok tt) ↔ (((m ≡ ha) × IsValidHa c) ⊎ ((m ≡ kv) × IsValidKv c))
unfolding validate_mode
mode-IsValid ha c = (
  λ h. inl (refl, (ha-IsValidHa c).0 h),
  λ v. elim v [ inl w ↦ (ha-IsValidHa c).1 w.1 | inr w ↦ absurd (ha-ne-kv w.0) ],
)
mode-IsValid kv c = (
  λ h. inr (refl, (kv-IsValidKv c).0 h),
  λ v. elim v [ inl w ↦ absurd (ha-ne-kv (sym w.0)) | inr w ↦ (kv-IsValidKv c).1 w.1 ],
)

-- The validation succeeds exactly for the valid configurations. In HA mode: node id, peer,
-- interface and group not blank, at least one address and none blank, priority, interval,
-- version and hook timeout at least 1, dead factor at least 2, jitter below the interval, hooks
-- absent or not blank, and a key that is given exactly where the mode wants one, and is not
-- blank then. In KV mode: a data directory and at least three members, none blank.
pub validate_iff : (c : Config) → (validate c ≡ ok tt) ↔ IsValid c
unfolding validate
validate_iff c = mode-IsValid c.mode c

unit-eq : (u : Unit {0}) → u ≡ tt
unit-eq tt = refl

module _ (from_str : Text → Option Config) where
  parsed_iff :
      (o : Option Config) (c : Config) → (parsed from_str o ≡ ok c) ↔ ((o ≡ some c) × IsValid c)
  unfolding parsed
  parsed_iff none c = (λ h. absurd (cc h), λ h. absurd (cc (h.0)))
  parsed_iff (some d) c = (
    λ h.
        let (u, checked, same) = >>=-eq-ok (validate d) _ h in
        let eq : d ≡ c = cc same in
        (ap some eq, subst IsValid eq ((validate_iff d).0 (checked ∙ ap ok (unit-eq u)))),
    λ h.
        let eq : d ≡ c = cc (h.0) in
        rw ((validate_iff d).1 (subst IsValid (sym eq) h.1)) (ap ok eq),
  )

  -- A text is loaded as a configuration exactly if the parser reads it as that configuration
  -- and it is valid.
  pub from_yaml_str_iff :
      (input : Text) (c : Config)
      → (from_yaml_str from_str input ≡ ok c) ↔ ((from_str input ≡ some c) × IsValid c)
  unfolding from_yaml_str
  from_yaml_str_iff input c = parsed_iff (from_str input) c
