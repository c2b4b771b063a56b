-- ===== src/Cli/Dispatch/Total.antt =====
-- `handler` of src/cli/dispatch/mod.rs on what clap matches by src/cli/commands/mod.rs.
use gruezi.Cli.Dispatch.Matching.{
  OneOf, Matched, MatchedBy, IsMatched, IsGood, not_given-none, not_given-default, u64-bounds,
  one_of-choice, as_text-none, given, default, absent,
}
use gruezi.Base.{◌≡◌, inl, inr, refl, ap, ◌∙◌, subst, Bool, some, [], ◌∷◌, All, ltb}
use gruezi.Base.Result.{ok}
use gruezi.Config.{default_ha_bind}
use gruezi.Text.{codes, text_eq}
use gruezi.Cli.{Action, start_action, status_action, peers_action}
use gruezi.Cli.Arg.{Command}
use gruezi.Cli.Commands.{
  new, start_command, status_command, peers_command, node_arg, watch_arg, interval_ms_arg,
  format_arg,
}
use gruezi.Cli.Options.{config_arg, bind_arg, peers_arg, node_id_arg, verbose_arg}
use gruezi.Cli.Dispatch.{
  ArgMatches, Matches, handler, as_text, as_u64, text_or, u64_or, get_text, get_u64, get_flag,
  get_count, find_arg, is_text_arg, is_u64_arg, is_flag_arg, is_count_arg, start_arm, status_arm,
  peers_arm, subcommand_arm, args_of,
}

start-IsGood :
    (m : ArgMatches) (verbose : Bool)
    → Matched m config_arg
    → Matched m bind_arg
    → Matched m peers_arg
    → Matched m node_id_arg
    → IsGood (
        start_action
          (as_text (m.value_of (codes "config")))
          (text_or (as_text (m.value_of (codes "bind"))) default_ha_bind)
          (as_text (m.value_of (codes "peers")))
          (as_text (m.value_of (codes "node-id")))
          verbose)
unfolding config_arg bind_arg peers_arg node_id_arg as_text text_or
start-IsGood m verbose (given v has g p (no_bind, (no_peers, (no_node, _)))) bind peers node_id =
    inr (
      ap (λ x. text_or (as_text x) default_ha_bind)
          (not_given-default m bind_arg default_ha_bind refl refl no_bind bind),
      as_text-none _ (not_given-none m peers_arg refl no_peers peers),
      as_text-none _ (not_given-none m node_id_arg refl no_node node_id),
    )
start-IsGood m verbose (default t v e has g p q) bind peers node_id = absurd (cc)
start-IsGood m verbose (absent e has g) bind peers node_id = inl (as_text-none _ has)

status-IsGood :
    (m : ArgMatches) (verbose : Bool)
    → Matched m interval_ms_arg
    → IsGood (
        status_action
          (as_text (m.value_of (codes "node")))
          verbose
          (m.flag_of (codes "watch"))
          (u64_or (as_u64 (m.value_of (codes "interval-ms"))) 1_000))
unfolding interval_ms_arg as_u64 u64_or
status-IsGood m verbose interval =
    let (i, e, le, lt) = u64-bounds m interval_ms_arg 1 0 (codes "1000") refl refl interval in
    rw e (le, lt)

peers-IsGood :
    (m : ArgMatches) (verbose : Bool)
    → Matched m format_arg
    → IsGood
        (peers_action (text_or (as_text (m.value_of (codes "format"))) (codes "table")) verbose)
unfolding format_arg as_text text_or
peers-IsGood m verbose format =
    let (t, e, o) = one_of-choice m format_arg _ (codes "table") refl refl format in rw e o

abbrev is_verbose : Matches → Bool
is_verbose m = ltb 0 (m.root.count_of (codes "verbose"))

abbrev Handles : Matches → Type 0
Handles m = (action : Action) × (handler new m ≡ ok action) × IsGood action

module _ (m : Matches) (sub : ArgMatches) where
  start-Handles :
      m.subcommand ≡ some (start_command.name, sub)
      → All (λ a. MatchedBy sub a a.action) start_command.args
      → Handles m
  unfolding handler get_count subcommand_arm start_arm get_text find_arg is_text_arg is_count_arg
      args_of new start_command config_arg bind_arg peers_arg node_id_arg verbose_arg text_eq
  start-Handles e (config, (bind, (peers, (node_id, _)))) = (
    _,
    ap (λ x. subcommand_arm new x (is_verbose m)) e,
    start-IsGood sub (is_verbose m) config bind peers node_id,
  )

  status-Handles :
      m.subcommand ≡ some (status_command.name, sub)
      → All (λ a. MatchedBy sub a a.action) status_command.args
      → Handles m
  unfolding handler get_count subcommand_arm status_arm get_text get_flag get_u64 find_arg
      is_text_arg is_count_arg is_flag_arg is_u64_arg args_of new status_command node_arg watch_arg
      interval_ms_arg verbose_arg text_eq start_command
  status-Handles e (_, (watch, (interval, _))) = (
    _,
    ap (λ x. subcommand_arm new x (is_verbose m)) e,
    status-IsGood sub (is_verbose m) interval,
  )

  peers-Handles :
      m.subcommand ≡ some (peers_command.name, sub)
      → All (λ a. MatchedBy sub a a.action) peers_command.args
      → Handles m
  unfolding handler get_count subcommand_arm peers_arm get_text find_arg is_text_arg is_count_arg
      args_of new peers_command format_arg verbose_arg text_eq start_command status_command
  peers-Handles e (format, _) =
      (_, ap (λ x. subcommand_arm new x (is_verbose m)) e, peers-IsGood sub (is_verbose m) format)

by_command :
    (m : Matches) (sub : ArgMatches) (c : Command)
    → OneOf c (start_command ∷ status_command ∷ peers_command ∷ [])
    → m.subcommand ≡ some (c.name, sub)
    → All (λ a. MatchedBy sub a a.action) c.args
    → Handles m
by_command m sub c (inl e) at args =
    start-Handles m sub (at ∙ ap (λ x. some (x.name, sub)) e)
      (subst (λ x. All (λ a. MatchedBy sub a a.action) x.args) e args)
by_command m sub c (inr (inl e)) at args =
    status-Handles m sub (at ∙ ap (λ x. some (x.name, sub)) e)
      (subst (λ x. All (λ a. MatchedBy sub a a.action) x.args) e args)
by_command m sub c (inr (inr (inl e))) at args =
    peers-Handles m sub (at ∙ ap (λ x. some (x.name, sub)) e)
      (subst (λ x. All (λ a. MatchedBy sub a a.action) x.args) e args)
by_command m sub c (inr (inr (inr e))) at args = absurd e

-- Where clap matched one of the declared commands, with an argument that takes a value either
-- given, with a value of its parser and without those that it conflicts with, or with its
-- default, or without a value, the dispatch asks clap for nothing that is not declared, and
-- gives an action: one that starts without a configuration file, or with the default bind
-- address, no peers and no node id; one that shows the status, with an interval that is a u64
-- of at least 1; or one that lists the peers as a table, JSON or YAML.
pub handler-IsGood :
    (m : Matches) → IsMatched m → (action : Action) × (handler new m ≡ ok action) × IsGood action
unfolding new
handler-IsGood m h = by_command m h.matches h.command h.is_command h.subcommand h.args
