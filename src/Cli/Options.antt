-- ===== src/Cli/Options.antt =====
-- The arguments of the program and of its `start` in src/cli/commands/mod.rs, as data.
use gruezi.Base.{true, false, none, some, [], ◌∷◌}
use gruezi.Config.{default_ha_bind}
use gruezi.Text.{codes}
use gruezi.Cli.Arg.{set, count, strings, Arg, joined}

unfoldable pub verbose_arg : Arg
unfolding joined
verbose_arg = record {
  id = codes "verbose";
  short = some b'v';
  long = codes "verbose";
  help = codes "Enable verbose CLI output";
  long_help = joined (
      codes "Enable verbose logging for debugging purposes."
      ∷ codes ""
      ∷ codes "Can be specified multiple times to increase verbosity:"
      ∷ codes "  -v    = INFO level"
      ∷ codes "  -vv   = DEBUG level"
      ∷ codes "  -vvv  = TRACE level"
      ∷ codes ""
      ∷ codes "Note: Verbose output is sent to stderr via the RUST_LOG environment variable."
      ∷ []);
  value_name = none;
  action = count;
  value_parser = strings;
  default_value = none;
  conflicts_with = [];
  is_global = true;
}

unfoldable pub config_arg : Arg
unfolding joined
config_arg = record {
  id = codes "config";
  short = some b'c';
  long = codes "config";
  help = codes "Path to a YAML configuration file";
  long_help = joined (
      codes "Path to a YAML configuration file."
      ∷ codes ""
      ∷ codes
          "When this is provided, `gruezi` ignores the direct `--bind`, `--peers`, and `--node-id` flags."
      ∷ codes "The config file can describe either `mode: ha` or `mode: kv`."
      ∷ []);
  value_name = some (codes "FILE");
  action = set;
  value_parser = strings;
  default_value = none;
  conflicts_with = codes "bind" ∷ codes "peers" ∷ codes "node-id" ∷ [];
  is_global = false;
}

unfoldable pub bind_arg : Arg
unfolding joined
bind_arg = record {
  id = codes "bind";
  short = some b'b';
  long = codes "bind";
  help = codes "Address to bind the HA listener to";
  long_help = joined (
      codes "Address to bind the HA listener to when using the direct CLI path."
      ∷ codes ""
      ∷ codes "This is primarily for `mode: ha` style startup without a YAML file."
      ∷ codes "The default is `0.0.0.0:9375`, which is the draft HA peer port."
      ∷ []);
  value_name = some (codes "ADDRESS");
  action = set;
  value_parser = strings;
  default_value = some default_ha_bind;
  conflicts_with = [];
  is_global = false;
}

unfoldable pub peers_arg : Arg
unfolding joined
peers_arg = record {
  id = codes "peers";
  short = some b'p';
  long = codes "peers";
  help = codes "Comma-separated list of peer addresses";
  long_help = joined (
      codes "Comma-separated list of peer addresses for the direct CLI startup path."
      ∷ codes ""
      ∷ codes
          "For HA mode this should identify the remote peer using the HA control port, for example `10.0.0.2:9375`."
      ∷ []);
  value_name = some (codes "PEERS");
  action = set;
  value_parser = strings;
  default_value = none;
  conflicts_with = [];
  is_global = false;
}

unfoldable pub node_id_arg : Arg
unfolding joined
node_id_arg = record {
  id = codes "node-id";
  short = some b'n';
  long = codes "node-id";
  help = codes "Unique node identifier";
  long_help = joined (
      codes "Unique node identifier for the local node when using the direct CLI startup path."
      ∷ codes ""
      ∷ codes "YAML-based HA configuration requires `node.id` explicitly."
      ∷ []);
  value_name = some (codes "ID");
  action = set;
  value_parser = strings;
  default_value = none;
  conflicts_with = [];
  is_global = false;
}
