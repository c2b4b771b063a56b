-- ===== src/Cli/Start/Succeeds.antt =====
-- When the start action of src/cli/actions/start.rs succeeds.
use gruezi.Base.{
  ◌≡◌, ◌⊎◌, ◌↔◌, inl, inr, refl, sym, subst, Bool, Bool-cases, true, false, Option, none, some,
  List,
}
use gruezi.Base.Result.{Result, ok, err}
use gruezi.Config.{Config, ConfigError, Mode, ha, kv, from_path}
use gruezi.Service.{
  ServiceError, StartError, converted, start_in, start_service_with_config, start_service,
}
use gruezi.Config.Valid.{IsValid, from_yaml_str_iff}
use gruezi.Text.{Text, codes}
use gruezi.Ha.Runtime.{HaRuntimeConfig, RuntimeError, runtime_from}
use gruezi.Cli.{Line}
use gruezi.Cli.Start.{
  RunError, ended, served, service_result, run_direct, direct_result, run_loaded, run_resolved,
  run_start, resolve_config_path, default_config_path,
}

ok_injective : {E A : Type 0} (a b : A) → ◌≡◌ {A = Result E A} (ok a) (ok b) → a ≡ b
ok_injective a b e = cc

some_injective : {A : Type 0} (a b : A) → some a ≡ some b → a ≡ b
some_injective a b e = cc

converted_iff :
    (res : Result RuntimeError HaRuntimeConfig) (r : HaRuntimeConfig)
    → (converted res ≡ ok r) ↔ (res ≡ ok r)
unfolding converted
converted_iff (ok x) r = (λ e. cc, λ e. cc)
converted_iff (err x) r = (λ e. cc, λ e. cc)

start_in_iff :
    (m : Mode) (c : Config) (r : HaRuntimeConfig)
    → (start_in m c ≡ ok r) ↔ ((m ≡ ha) × (runtime_from c ≡ ok r))
unfolding start_in
start_in_iff ha c r = (
  λ e. (refl, (converted_iff (runtime_from c) r).0 e),
  λ h. (converted_iff (runtime_from c) r).1 h.1,
)
start_in_iff kv c r = (λ e. absurd (cc), λ h. absurd (cc))

module _ (serve : HaRuntimeConfig → Result ServiceError (Unit {0})) where
  served_iff :
      (path : Text) (res : Result ServiceError (Unit {0}))
      → (served path res ≡ ok tt) ↔ (res ≡ ok tt)
  unfolding served
  served_iff path (ok tt) = (λ e. refl, λ e. refl)
  served_iff path (err x) = (λ e. absurd (cc), λ e. absurd (cc))

  service_result_iff :
      (path : Text) (res : Result StartError HaRuntimeConfig)
      → (service_result serve path res ≡ ok tt)
        ↔ ((r : HaRuntimeConfig) × (res ≡ ok r) × (serve r ≡ ok tt))
  unfolding service_result
  service_result_iff path (ok r) = (
    λ e. (r, refl, (served_iff path (serve r)).0 e),
    λ h.
        (served_iff path (serve r)).1
          (subst (λ x. serve x ≡ ok tt) (sym (ok_injective r h.0 h.1)) h.2),
  )
  service_result_iff path (err x) = (λ e. absurd (cc), λ h. absurd (cc))

  start_service_iff :
      (path : Text) (c : Config)
      → (service_result serve path (start_service_with_config c) ≡ ok tt)
        ↔ ((r : HaRuntimeConfig) × (c.mode ≡ ha) × (runtime_from c ≡ ok r) × (serve r ≡ ok tt))
  unfolding start_service_with_config
  start_service_iff path c = (
    λ e.
        let (r, started, done) = (service_result_iff path (start_in c.mode c)).0 e in
        let (mode, runtime) = (start_in_iff c.mode c r).0 started in (r, mode, runtime, done),
    λ h.
        (service_result_iff path (start_in c.mode c)).1
          (h.0, (start_in_iff c.mode c h.0).1 (h.1, h.2), h.3),
  )

ended-ok :
    (last : Text) (lines : List Line) (res : Result RunError (Unit {0}))
    → ((ended last lines res).1 ≡ ok tt) ↔ (res ≡ ok tt)
unfolding ended
ended-ok last lines (ok tt) = (λ e. refl, λ e. refl)
ended-ok last lines (err x) = (λ e. absurd (cc), λ e. absurd (cc))

module _ (read : Text → Option Text) (exists : Text → Bool) (env_path : Option Text)
    (from_str : Text → Option Config)
    (serve : HaRuntimeConfig → Result ServiceError (Unit {0})) where
  -- Which configuration file is meant, if any: the one of the command line, else that of the
  -- environment, else the default one where it exists.
  pub data IsChosen (config_path : Option Text) : Option Text → Type 0 where
    named : (path : Text) → config_path ≡ some path → IsChosen config_path (some path)
    in_environment :
        (path : Text) → config_path ≡ none → env_path ≡ some path → IsChosen config_path (some path)
    by_default :
        config_path ≡ none
        → env_path ≡ none
        → exists (codes "/etc/gruezi/gruezi.yaml") ≡ true
        → IsChosen config_path (some (codes "/etc/gruezi/gruezi.yaml"))
    nowhere :
        config_path ≡ none
        → env_path ≡ none
        → exists (codes "/etc/gruezi/gruezi.yaml") ≡ false
        → IsChosen config_path none

  resolved_by :
      (config_path env : Option Text)
      → env_path ≡ env
      → IsChosen config_path (resolve_config_path exists config_path env default_config_path)
  unfolding resolve_config_path default_config_path
  resolved_by (some path) env e = named path refl
  resolved_by none (some path) e = in_environment path refl e
  resolved_by none none e = elim (Bool-cases (exists (codes "/etc/gruezi/gruezi.yaml"))) [
    | inl there ↦ rw there (by_default refl e there)
    | inr absent ↦ rw absent (nowhere refl e absent)
  ]

  resolved_only :
      (config_path found : Option Text)
      → IsChosen config_path found
      → resolve_config_path exists config_path env_path default_config_path ≡ found
  unfolding resolve_config_path default_config_path
  resolved_only config_path _ (named path c) = rw c refl
  resolved_only config_path _ (in_environment path c e) = rw (c, e) refl
  resolved_only config_path _ (by_default c e there) = rw (c, e, there) refl
  resolved_only config_path _ (nowhere c e absent) = rw (c, e, absent) refl

  -- The file at the path is read and parsed, gives a valid configuration in HA mode that
  -- converts, and the service that runs with it ends well.
  pub record Serves (path : Text) : Type 0 where
    pub text : Text
    pub config : Config
    pub runtime : HaRuntimeConfig
    pub can_read : read path ≡ some text
    pub parses : from_str text ≡ some config
    pub valid : IsValid config
    pub mode : config.mode ≡ ha
    pub converts : runtime_from config ≡ ok runtime
    pub ends_well : serve runtime ≡ ok tt

  from_path_iff :
      (raw : Option Text) (c : Config)
      → (from_path from_str raw ≡ ok c)
        ↔ ((text : Text) × (raw ≡ some text) × (from_str text ≡ some c) × IsValid c)
  unfolding from_path
  from_path_iff none c = (λ e. absurd (cc), λ h. absurd (cc))
  from_path_iff (some text) c = (
    λ e.
        let (parsed, valid) = (from_yaml_str_iff from_str text c).0 e in
        (text, refl, parsed, valid),
    λ h.
        let same : text ≡ h.0 = some_injective text h.0 h.1 in
        (from_yaml_str_iff from_str text c).1 (rw same (h.2), h.3),
  )

  loaded_iff :
      (path : Text) (res : Result ConfigError Config) (verbose : Bool)
      → ((run_loaded read exists env_path from_str serve path res verbose).1 ≡ ok tt) ↔ (
          (c : Config) × (r : HaRuntimeConfig) × (res ≡ ok c)
          × (c.mode ≡ ha)
          × (runtime_from c ≡ ok r)
          × (serve r ≡ ok tt))
  unfolding run_loaded
  loaded_iff path (err x) verbose = (λ e. absurd (cc), λ h. absurd (cc))
  loaded_iff path (ok c) verbose = (
    λ e.
        let (r, mode, runtime, done) = (start_service_iff serve path c).0 ((ended-ok _ _ _).0 e) in
        (c, r, refl, mode, runtime, done),
    λ h.
        let same = sym (ok_injective c h.0 h.2) in
        (ended-ok _ _ _).1 (
          (start_service_iff serve path c).1 (
            h.1,
            subst (λ x. x.mode ≡ ha) same h.3,
            subst (λ x. runtime_from x ≡ ok h.1) same h.4,
            h.5,
          )),
  )

  direct_ok :
      (bind : Text) (peers node_id : Option Text) (verbose : Bool)
      → (run_direct bind peers node_id verbose).1 ≡ ok tt
  unfolding run_direct ended direct_result start_service
  direct_ok bind peers node_id verbose = refl

  file_iff :
      (p : Text) (verbose : Bool)
      → ((run_loaded read exists env_path from_str serve p (from_path from_str (read p)) verbose).1
          ≡ ok tt)
        ↔ Serves p
  file_iff p verbose = (
    λ e.
        let (c, r, loaded, mode, runtime, done) =
          (loaded_iff p (from_path from_str (read p)) verbose).0 e in
        let (text, there, parsed, valid) = (from_path_iff (read p) c).0 loaded in
        record {
          text = text;
          config = c;
          runtime = r;
          can_read = there;
          parses = parsed;
          valid = valid;
          mode = mode;
          converts = runtime;
          ends_well = done;
        },
    λ h. (loaded_iff p (from_path from_str (read p)) verbose).1 (
      h.config,
      h.runtime,
      (from_path_iff (read p) h.config).1 (h.text, h.can_read, h.parses, h.valid),
      h.mode,
      h.converts,
      h.ends_well,
    ),
  )

  of_some : (p : Text) → (some p ≡ none) ⊎ ((q : Text) × (some p ≡ some q) × Serves q) → Serves p
  of_some p (inl e) = absurd (cc)
  of_some p (inr (q, e, s)) = subst Serves (sym (some_injective p q e)) s

  resolved_iff :
      (path : Option Text) (bind : Text) (peers node_id : Option Text) (verbose : Bool)
      → ((run_resolved read exists env_path from_str serve path bind peers node_id verbose).1
          ≡ ok tt)
        ↔ ((path ≡ none) ⊎ ((p : Text) × (path ≡ some p) × Serves p))
  unfolding run_resolved
  resolved_iff none bind peers node_id verbose =
      (λ e. inl refl, λ h. direct_ok bind peers node_id verbose)
  resolved_iff (some p) bind peers node_id verbose =
      (λ e. inr (p, refl, (file_iff p verbose).0 e), λ h. (file_iff p verbose).1 (of_some p h))

  -- The start action succeeds exactly in two cases. No configuration file is meant: none is
  -- named on the command line or in the environment, and `/etc/gruezi/gruezi.yaml` does not
  -- exist. Or one is meant, that of the command line, else that of the environment, else
  -- `/etc/gruezi/gruezi.yaml` where it exists; and it can be read, parses to a configuration
  -- that is valid and in HA mode, and converts to a runtime configuration, and the service run
  -- with that returns successfully.
  pub run_start-ok_iff :
      (config_path : Option Text) (bind : Text) (peers node_id : Option Text) (verbose : Bool)
      → ((run_start read exists env_path from_str serve config_path bind peers node_id verbose).1
          ≡ ok tt)
        ↔ (IsChosen config_path none
            ⊎ ((path : Text) × IsChosen config_path (some path) × Serves path))
  unfolding run_start
  run_start-ok_iff config_path bind peers node_id verbose =
      let found = resolve_config_path exists config_path env_path default_config_path in
      let chosen = resolved_by config_path env_path refl in
      (
        λ e. elim ((resolved_iff found bind peers node_id verbose).0 e) [
          | inl n ↦ inl (subst (IsChosen config_path) n chosen)
          | inr p ↦ inr (p.0, subst (IsChosen config_path) p.1 chosen, p.2)
        ],
        λ h. (resolved_iff found bind peers node_id verbose).1 (elim h [
          | inl n ↦ inl (resolved_only config_path none n)
          | inr p ↦ inr (p.0, resolved_only config_path (some p.0) p.1, p.2)
        ]),
      )
