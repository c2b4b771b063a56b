-- ===== src/Cli/Start.antt =====
-- The start action of src/cli/actions/start.rs. The file system, the environment, the YAML parser
-- and a run of the service are arguments; a path is a text.
pub mod Succeeds
use gruezi.Base.{
  ℕ, Bool, true, false, Option, none, some, List, [], ◌∷◌, ◌++◌, if◌then◌else◌, length,
}
use gruezi.Base.Result.{Result, ok, err}
use gruezi.Config.{Config, ConfigError, Mode, ha, kv, from_path}
use gruezi.Service.{ServiceError, StartError, start_service_with_config, start_service}
use gruezi.Text.{Text, codes}
use gruezi.Text.Decimal.{display}
use gruezi.Ha.Runtime.{HaRuntimeConfig}
use gruezi.Cli.{Line, println}

-- `DEFAULT_CONFIG_PATH`
unfoldable pub default_config_path : Text
default_config_path = codes "/etc/gruezi/gruezi.yaml"

-- `resolve_config_path`; `exists` is asked of the default path only.
unfoldable pub resolve_config_path : (Text → Bool) → Option Text → Option Text → Text → Option Text
resolve_config_path exists (some path) env_path default_path = some path
resolve_config_path exists none (some path) default_path = some path
resolve_config_path exists none none default_path =
    if exists default_path then some default_path else none

pub data RunError : Type 0 where
  config_error : ConfigError → RunError
  start_error : Text → StartError → RunError
  service_error : Text → ServiceError → RunError
  direct_error : StartError → RunError

option_or : Option Text → Text → Text
option_or none t = t
option_or (some s) t = s

mode_lines : Config → Mode → List Line
unfolding option_or display
mode_lines c ha =
    println (codes "Mode: ha")
    ∷ println (codes "Bind: " ++ c.ha_config.bind)
    ∷ println (codes "Interface: " ++ c.ha_config.interface)
    ∷ println (codes "Group ID: " ++ c.ha_config.group_id)
    ∷ println (codes "Peer: " ++ option_or c.ha_config.peer (codes "unknown"))
    ∷ println (codes "Protocol version: " ++ display c.ha_config.protocol_version)
    ∷ println (codes "Advert interval: " ++ (display c.ha_config.advert_interval_ms ++ codes "ms"))
    ∷ println (codes "Dead factor: " ++ display c.ha_config.dead_factor)
    ∷ []
mode_lines c kv =
    println (codes "Mode: kv")
    ∷ println (codes "Client listen: " ++ c.kv_config.listen_client)
    ∷ println (codes "Peer listen: " ++ c.kv_config.listen_peer)
    ∷ println (codes "Data dir: " ++ c.kv_config.data_dir)
    ∷ println (codes "Members: " ++ display (length c.kv_config.initial_cluster))
    ∷ []

loaded_lines : Text → Config → Bool → List Line
unfolding mode_lines
loaded_lines path c verbose =
    if verbose then println (codes "Loaded config: " ++ path) ∷ mode_lines c c.mode else []

-- The end of a run: the last line only after a success.
unfoldable pub ended :
    Text → List Line → Result RunError (Unit {0}) → List Line × Result RunError (Unit {0})
ended last lines (ok done) = (lines ++ (println last ∷ []), ok done)
ended last lines (err e) = (lines, err e)

unfoldable pub served : Text → Result ServiceError (Unit {0}) → Result RunError (Unit {0})
served path (ok done) = ok done
served path (err e) = err (service_error path e)

-- `start_service_with_config(..).await.with_context(..)`
unfoldable pub service_result :
    (HaRuntimeConfig → Result ServiceError (Unit {0}))
    → Text
    → Result StartError HaRuntimeConfig
    → Result RunError (Unit {0})
unfolding served
service_result serve path (ok r) = served path (serve r)
service_result serve path (err e) = err (start_error path e)

optional_line : Text → Option Text → List Line
optional_line label none = []
optional_line label (some t) = println (label ++ t) ∷ []

direct_lines : Text → Option Text → Option Text → Bool → List Line
unfolding optional_line
direct_lines bind peers node_id verbose =
    if verbose
    then println (codes "Bind address: " ++ bind)
      ∷ (optional_line (codes "Peers: ") peers ++ optional_line (codes "Node ID: ") node_id)
    else []

unfoldable pub direct_result : Result StartError (Unit {0}) → Result RunError (Unit {0})
direct_result (ok done) = ok done
direct_result (err e) = err (direct_error e)

-- The direct path, at the end of `run`.
unfoldable pub run_direct :
    Text → Option Text → Option Text → Bool → List Line × Result RunError (Unit {0})
unfolding direct_lines ended direct_result start_service
run_direct bind peers node_id verbose =
    ended (codes "Gruezi service stopped on " ++ bind)
      (direct_lines bind peers node_id verbose
        ++ (println (codes "Starting gruezi on " ++ bind) ∷ []))
      (direct_result (start_service bind peers node_id))

module _ (read : Text → Option Text) (exists : Text → Bool) (env_path : Option Text)
    (from_str : Text → Option Config)
    (serve : HaRuntimeConfig → Result ServiceError (Unit {0})) where
  -- `run` with a configuration, or the error of `load_config`.
  unfoldable pub run_loaded :
      Text → Result ConfigError Config → Bool → List Line × Result RunError (Unit {0})
  unfolding loaded_lines ended service_result start_service_with_config
  run_loaded path (err e) verbose = ([], err (config_error e))
  run_loaded path (ok c) verbose =
      ended (codes "Gruezi service stopped using config " ++ path)
        (loaded_lines path c verbose
          ++ (println (codes "Starting gruezi using config " ++ path) ∷ []))
        (service_result serve path (start_service_with_config c))

  unfoldable pub run_resolved :
      Option Text → Text → Option Text → Option Text → Bool → List Line × Result RunError (Unit {0})
  unfolding run_loaded run_direct from_path
  run_resolved (some path) bind peers node_id verbose =
      run_loaded path (from_path from_str (read path)) verbose
  run_resolved none bind peers node_id verbose = run_direct bind peers node_id verbose

  -- `run`, with `load_config`
  unfoldable pub run_start :
      Option Text → Text → Option Text → Option Text → Bool → List Line × Result RunError (Unit {0})
  unfolding run_resolved resolve_config_path default_config_path
  run_start config_path bind peers node_id verbose =
      run_resolved (resolve_config_path exists config_path env_path default_config_path) bind peers
        node_id verbose
