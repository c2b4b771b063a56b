-- ===== src/Cli/Dispatch.antt =====
-- `handler` of src/cli/dispatch/mod.rs, on what clap matched. A getter of clap panics if the command
-- declares no such argument, or one of another type: that is an error here.
pub mod Total
pub mod Matching
use gruezi.Base.{
  ℕ, ◌≤◌, ◌≡◌, ◌⊎◌, Bool, true, false, Option, none, some, List, [], ◌∷◌, if◌then◌else◌, ltb,
}
use gruezi.Base.Result.{Result, ok, err, ◌>>=◌}
use gruezi.Config.{default_ha_bind}
use gruezi.Text.{Text, codes, text_eq}
use gruezi.Cli.{Action, start_action, status_action, peers_action}
use gruezi.Cli.Arg.{
  ArgAction, set, set_true, count, ValueParser, strings, u64_from, one_of, Arg, Command,
}
use gruezi.Cli.Commands.{Cli}

-- A value of an argument.
pub data Value : Type 0 where
  text_value : Text → Value
  u64_value : ℕ → Value

-- `clap::ArgMatches` of one command, by the ids of its arguments: the value, if there is one; whether
-- a flag is set; how often the argument occurs.
pub record ArgMatches : Type 0 where
  pub value_of : Text → Option Value
  pub flag_of : Text → Bool
  pub count_of : Text → ℕ
  -- is it on the command line, and not a default?
  pub is_given : Text → Bool

-- With the subcommand, which is its name and its own matches.
pub record Matches : Type 0 where
  pub root : ArgMatches
  pub subcommand : Option (Text × ArgMatches)

pub data DispatchError : Type 0 where
  -- a panic of clap
  no_such_argument : Text → DispatchError
  invalid_command : DispatchError

unfoldable pub find_arg : List Arg → Text → Option Arg
find_arg [] id = none
find_arg (a ∷ rest) id = if text_eq a.id id then some a else find_arg rest id

-- The kinds of argument that a getter can ask for.
unfoldable pub is_text_arg : Option Arg → Bool
is_text_arg none = false
is_text_arg (some a) = elim a.action [
  | set ↦ elim a.value_parser [ strings ↦ true | one_of texts ↦ true | u64_from n ↦ false ]
  | set_true ↦ false
  | count ↦ false
]

unfoldable pub is_u64_arg : Option Arg → Bool
is_u64_arg none = false
is_u64_arg (some a) = elim a.action [
  | set ↦ elim a.value_parser [ strings ↦ false | one_of texts ↦ false | u64_from n ↦ true ]
  | set_true ↦ false
  | count ↦ false
]

unfoldable pub is_flag_arg : Option Arg → Bool
is_flag_arg none = false
is_flag_arg (some a) = elim a.action [ set ↦ false | set_true ↦ true | count ↦ false ]

unfoldable pub is_count_arg : Option Arg → Bool
is_count_arg none = false
is_count_arg (some a) = elim a.action [ set ↦ false | set_true ↦ false | count ↦ true ]

-- The value, if it is of the type.
unfoldable pub as_text : Option Value → Option Text
as_text none = none
as_text (some (text_value t)) = some t
as_text (some (u64_value n)) = none

unfoldable pub as_u64 : Option Value → Option ℕ
as_u64 none = none
as_u64 (some (text_value t)) = none
as_u64 (some (u64_value n)) = some n

module _ (args : List Arg) (m : ArgMatches) where
  -- `get_one::<String>`
  unfoldable pub get_text : Text → Result DispatchError (Option Text)
  unfolding is_text_arg as_text find_arg
  get_text id =
      if is_text_arg (find_arg args id)
      then ok (as_text (m.value_of id))
      else err (no_such_argument id)

  -- `get_one::<u64>`
  unfoldable pub get_u64 : Text → Result DispatchError (Option ℕ)
  unfolding is_u64_arg as_u64 find_arg
  get_u64 id =
      if is_u64_arg (find_arg args id)
      then ok (as_u64 (m.value_of id))
      else err (no_such_argument id)

  -- `get_flag`
  unfoldable pub get_flag : Text → Result DispatchError Bool
  unfolding is_flag_arg find_arg
  get_flag id =
      if is_flag_arg (find_arg args id) then ok (m.flag_of id) else err (no_such_argument id)

  -- `get_count`
  unfoldable pub get_count : Text → Result DispatchError ℕ
  unfolding is_count_arg find_arg
  get_count id =
      if is_count_arg (find_arg args id) then ok (m.count_of id) else err (no_such_argument id)

unfoldable pub text_or : Option Text → Text → Text
text_or none t = t
text_or (some s) t = s

unfoldable pub u64_or : Option ℕ → ℕ → ℕ
u64_or none n = n
u64_or (some m) n = m

-- The arms of `handler`.
unfoldable pub start_arm : List Arg → ArgMatches → Bool → Result DispatchError Action
unfolding get_text text_or
start_arm args m verbose = do
  config ← get_text args m (codes "config")
  bind ← get_text args m (codes "bind")
  peers ← get_text args m (codes "peers")
  node_id ← get_text args m (codes "node-id")
  ok (start_action config (text_or bind default_ha_bind) peers node_id verbose)

unfoldable pub status_arm : List Arg → ArgMatches → Bool → Result DispatchError Action
unfolding get_text get_flag get_u64 u64_or
status_arm args m verbose = do
  node ← get_text args m (codes "node")
  watch ← get_flag args m (codes "watch")
  interval_ms ← get_u64 args m (codes "interval-ms")
  ok (status_action node verbose watch (u64_or interval_ms 1_000))

unfoldable pub peers_arm : List Arg → ArgMatches → Bool → Result DispatchError Action
unfolding get_text text_or
peers_arm args m verbose = do
  format ← get_text args m (codes "format")
  ok (peers_action (text_or format (codes "table")) verbose)

-- The arguments that a subcommand declares.
unfoldable pub args_of : List Command → Text → List Arg
args_of [] name = []
args_of (c ∷ cs) name = if text_eq c.name name then c.args else args_of cs name

unfoldable pub subcommand_arm :
    Cli → Option (Text × ArgMatches) → Bool → Result DispatchError Action
unfolding start_arm status_arm peers_arm args_of
subcommand_arm cli none verbose = err invalid_command
subcommand_arm cli (some (name, m)) verbose =
    if text_eq name (codes "start")
    then start_arm (args_of cli.subcommands name) m verbose
    else if text_eq name (codes "status")
    then status_arm (args_of cli.subcommands name) m verbose
    else if text_eq name (codes "peers")
    then peers_arm (args_of cli.subcommands name) m verbose
    else err invalid_command

-- `handler`
unfoldable pub handler : Cli → Matches → Result DispatchError Action
unfolding get_count subcommand_arm
handler cli m = do
  verbose ← get_count cli.args m.root (codes "verbose")
  subcommand_arm cli m.subcommand (ltb 0 verbose)
