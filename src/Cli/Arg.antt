-- ===== src/Cli/Arg.antt =====
-- What src/cli/commands/mod.rs uses of clap's builders.
use gruezi.Base.{ℕ, Bool, Option, List, [], ◌∷◌, ◌++◌}
use gruezi.Text.{Text}

-- `ArgAction`
pub data ArgAction : Type 0 where
  set set_true count : ArgAction

-- `value_parser`: the default one for `String`, a range of u64 from its start, or a list.
pub data ValueParser : Type 0 where
  strings : ValueParser
  u64_from : ℕ → ValueParser
  one_of : List Text → ValueParser

pub record Arg : Type 0 where
  pub id : Text
  pub short : Option ℕ
  pub long : Text
  pub help : Text
  pub long_help : Text
  pub value_name : Option Text
  pub action : ArgAction
  pub value_parser : ValueParser
  pub default_value : Option Text
  pub conflicts_with : List Text
  pub is_global : Bool

pub record Command : Type 0 where
  pub name : Text
  pub about : Text
  pub long_about : Text
  pub args : List Arg

-- Lines of a text, with `\n` between them.
unfoldable pub joined : List Text → Text
joined [] = []
joined (l ∷ []) = l
joined (l ∷ m ∷ ms) = l ++ (0xa ∷ joined (m ∷ ms))
