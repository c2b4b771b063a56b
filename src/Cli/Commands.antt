-- ===== src/Cli/Commands.antt =====
-- The command line of src/cli/commands/mod.rs as data. Styles, version
-- and author are left out, which concern only what `--help` and `--version` print.
use gruezi.Cli.Options.{verbose_arg, config_arg, bind_arg, peers_arg, node_id_arg}
use gruezi.Base.{Bool, true, false, none, some, List, [], ◌∷◌}
use gruezi.Text.{Text, codes}
use gruezi.Cli.Arg.{set, set_true, strings, u64_from, one_of, Arg, Command, joined}

-- `start_command`
unfoldable pub start_command : Command
unfolding joined config_arg bind_arg peers_arg node_id_arg
start_command = record {
  name = codes "start";
  about = codes "Start the gruezi service";
  long_about = joined (
      codes "Start `gruezi` using either YAML configuration or the direct HA CLI flags."
      ∷ codes ""
      ∷ codes "Preferred path:"
      ∷ codes "- use `--config` with a YAML file"
      ∷ codes "- or rely on `GRUEZI_CONFIG`"
      ∷ codes "- or place the default file at `/etc/gruezi/gruezi.yaml`"
      ∷ codes ""
      ∷ codes "Direct flags remain available as an incremental HA-only path. In that case,"
      ∷ codes "`--bind` defaults to the HA control port on `0.0.0.0:9375`."
      ∷ []);
  args = config_arg ∷ bind_arg ∷ peers_arg ∷ node_id_arg ∷ [];
}

unfoldable pub node_arg : Arg
unfolding joined
node_arg = record {
  id = codes "node";
  short = some b'n';
  long = codes "node";
  help = codes "Query a specific node or API endpoint";
  long_help = joined (
      codes "Query a specific node or API endpoint."
      ∷ codes ""
      ∷ codes "This should point to the management/API address, not the HA UDP peer port."
      ∷ []);
  value_name = some (codes "ADDRESS");
  action = set;
  value_parser = strings;
  default_value = none;
  conflicts_with = [];
  is_global = false;
}

unfoldable pub watch_arg : Arg
unfolding joined
watch_arg = record {
  id = codes "watch";
  short = some b'w';
  long = codes "watch";
  help = codes "Refresh status continuously until interrupted";
  long_help = joined (
      codes "Refresh status continuously until interrupted."
      ∷ codes ""
      ∷ codes "This is intended for live HA observation and correlation with packet captures."
      ∷ []);
  value_name = none;
  action = set_true;
  value_parser = strings;
  default_value = none;
  conflicts_with = [];
  is_global = false;
}

unfoldable pub interval_ms_arg : Arg
unfolding joined
interval_ms_arg = record {
  id = codes "interval-ms";
  short = none;
  long = codes "interval-ms";
  help = codes "Polling interval in milliseconds for --watch";
  long_help = joined (
      codes "Polling interval in milliseconds for `--watch`."
      ∷ codes ""
      ∷ codes "The default is 1000ms."
      ∷ []);
  value_name = some (codes "MILLISECONDS");
  action = set;
  value_parser = u64_from 1;
  default_value = some (codes "1000");
  conflicts_with = [];
  is_global = false;
}

-- `status_command`
unfoldable pub status_command : Command
unfolding joined node_arg watch_arg interval_ms_arg
status_command = record {
  name = codes "status";
  about = codes "Show cluster status";
  long_about = joined (
      codes "Show status for the local node or a remote node."
      ∷ codes ""
      ∷ codes
          "Over time this command is expected to target the common API and management port on `9376/tcp` rather than the HA or Raft peer ports directly."
      ∷ []);
  args = node_arg ∷ watch_arg ∷ interval_ms_arg ∷ [];
}

unfoldable pub format_arg : Arg
unfolding joined
format_arg = record {
  id = codes "format";
  short = some b'f';
  long = codes "format";
  help = codes "Render output as table, json, or yaml";
  long_help = joined (
      codes "Render peer output in one of the supported formats."
      ∷ codes ""
      ∷ codes
          "`table` is intended for operators, while `json` and `yaml` are better for automation."
      ∷ []);
  value_name = some (codes "FORMAT");
  action = set;
  value_parser = one_of (codes "table" ∷ codes "json" ∷ codes "yaml" ∷ []);
  default_value = some (codes "table");
  conflicts_with = [];
  is_global = false;
}

-- `peers_command`
unfoldable pub peers_command : Command
unfolding joined format_arg
peers_command = record {
  name = codes "peers";
  about = codes "List cluster peers";
  long_about = joined (
      codes "List peers known to the current node."
      ∷ codes ""
      ∷ codes
          "This command is intended for both HA and KV workflows and should eventually reflect peer information gathered through the shared management/API layer."
      ∷ []);
  args = format_arg ∷ [];
}

-- `new`: the long description, the arguments of all commands, and the commands.
pub record Cli : Type 0 where
  pub name : Text
  pub long_about : Text
  pub args : List Arg
  pub subcommands : List Command
  pub subcommand_required : Bool
  pub arg_required_else_help : Bool

unfoldable pub new : Cli
unfolding joined verbose_arg start_command status_command peers_command
new = record {
  name = codes "gruezi";
  long_about = joined (
      codes "Gruezi provides two operational modes:"
      ∷ codes ""
      ∷ codes "- `ha`: 2-node high availability using a UDP-based failover protocol on port 9375"
      ∷ codes
          "- `kv`: 3+ node consensus-backed key-value service with API traffic on port 9376 and peer traffic on port 9377"
      ∷ codes ""
      ∷ codes
          "Configuration is loaded from `--config`, then `GRUEZI_CONFIG`, then `/etc/gruezi/gruezi.yaml` if present."
      ∷ codes ""
      ∷ codes
          "The CLI is intended to expose both local control and remote management workflows over time."
      ∷ []);
  args = verbose_arg ∷ [];
  subcommands = start_command ∷ status_command ∷ peers_command ∷ [];
  subcommand_required = true;
  arg_required_else_help = true;
}
