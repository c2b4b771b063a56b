-- ===== src/Cli/Dispatch/Matching.antt =====
-- What clap promises of its matches, for src/cli/dispatch/mod.rs, and what a value that it gives is.
use gruezi.Base.{
  ℕ, ◌≤◌, ◌<◌, ◌^◌, ◌≡◌, ◌⊎◌, ap, ◌∙◌, subst, Bool, true, false, Option, none, some, List, [], ◌∷◌,
  All,
}
use gruezi.Config.{default_ha_bind}
use gruezi.Text.{Text, codes}
use gruezi.Text.Decimal.{display}
use gruezi.Cli.{Action, start_action, status_action, peers_action}
use gruezi.Cli.Arg.{
  ArgAction, set, set_true, count, ValueParser, strings, u64_from, one_of, Arg, Command,
}
use gruezi.Cli.Commands.{new}
use gruezi.Cli.Dispatch.{Value, text_value, u64_value, ArgMatches, Matches, as_text}

abbrev pub OneOf : {A : Type 0} → A → List A → Type 0
OneOf x [] = ⊥
OneOf x (y ∷ ys) = (x ≡ y) ⊎ OneOf x ys

-- A value that the parser gives.
abbrev IsParsed : ValueParser → Value → Type 0
IsParsed strings v = (t : Text) × (v ≡ text_value t)
IsParsed (one_of ts) v = (t : Text) × (v ≡ text_value t) × OneOf t ts
IsParsed (u64_from k) v = (n : ℕ) × (v ≡ u64_value n) × (k ≤ n) × (n < 2 ^ 64)

-- The value that the parser gives for a text.
abbrev Parses : ValueParser → Text → Value → Type 0
Parses strings t v = v ≡ text_value t
Parses (one_of ts) t v = v ≡ text_value t
Parses (u64_from k) t v = (n : ℕ) × (v ≡ u64_value n) × (t ≡ display n)

-- What clap documents of an argument that takes a value: it is given, with a value that its parser
-- gives, and none of those that it conflicts with is; or it has its default; or it has no value.
pub data Matched (m : ArgMatches) (a : Arg) : Type 0 where
  given :
      (v : Value)
      → m.value_of a.id ≡ some v
      → m.is_given a.id ≡ true
      → IsParsed a.value_parser v
      → All (λ c. m.is_given c ≡ false) a.conflicts_with
      → Matched m a
  default :
      (t : Text) (v : Value)
      → a.default_value ≡ some t
      → m.value_of a.id ≡ some v
      → m.is_given a.id ≡ false
      → IsParsed a.value_parser v
      → Parses a.value_parser t v
      → Matched m a
  absent : a.default_value ≡ none → m.value_of a.id ≡ none → m.is_given a.id ≡ false → Matched m a

-- An argument that takes no value is always there.
abbrev pub MatchedBy : ArgMatches → Arg → ArgAction → Type 0
MatchedBy m a set = Matched m a
MatchedBy m a set_true = Unit {0}
MatchedBy m a count = Unit {0}

-- The matches that clap gives for the command line `new`: it requires a subcommand.
pub record IsMatched (m : Matches) : Type 0 where
  pub command : Command
  pub matches : ArgMatches
  pub is_command : OneOf command new.subcommands
  pub subcommand : m.subcommand ≡ some (command.name, matches)
  pub args : All (λ a. MatchedBy matches a a.action) command.args

-- What the actions promise to their execution.
abbrev pub IsGood : Action → Type 0
IsGood (start_action config bind peers node_id verbose) =
    (config ≡ none) ⊎ ((bind ≡ default_ha_bind) × (peers ≡ none) × (node_id ≡ none))
IsGood (status_action _ verbose watch interval_ms) = (1 ≤ interval_ms) × (interval_ms < 2 ^ 64)
IsGood (peers_action format verbose) =
    OneOf format (codes "table" ∷ codes "json" ∷ codes "yaml" ∷ [])

given_or_default : (b : Bool) → b ≡ true → b ≡ false → ⊥
given_or_default b t f = cc

-- An argument without a default that is not given has no value.
pub not_given-none :
    (m : ArgMatches) (a : Arg)
    → a.default_value ≡ none
    → m.is_given a.id ≡ false
    → Matched m a
    → m.value_of a.id ≡ none
not_given-none m a d f (given v has g p c) = absurd (given_or_default _ g f)
not_given-none m a d f (default t v e has g p q) = absurd (cc)
not_given-none m a d f (absent e has g) = has

-- A string argument with a default that is not given has the default.
pub not_given-default :
    (m : ArgMatches) (a : Arg) (t : Text)
    → a.value_parser ≡ strings
    → a.default_value ≡ some t
    → m.is_given a.id ≡ false
    → Matched m a
    → m.value_of a.id ≡ some (text_value t)
not_given-default m a t p d f (given v has g q c) = absurd (given_or_default _ g f)
not_given-default m a t p d f (default u v e has g q r) =
    let parses : Parses strings u v = subst (λ x. Parses x u v) p r in
    has ∙ ap some (parses ∙ ap text_value (cc))
not_given-default m a t p d f (absent e has g) = absurd (cc)

-- A number with a default is a u64 from its start.
pub u64-bounds :
    (m : ArgMatches) (a : Arg) (k n : ℕ) (t : Text)
    → a.value_parser ≡ u64_from k
    → a.default_value ≡ some t
    → Matched m a
    → (i : ℕ) × (m.value_of a.id ≡ some (u64_value i)) × (k ≤ i) × (i < 2 ^ 64)
u64-bounds m a k n t p d (given v has g q c) =
    let (i, e, le, lt) = subst (λ x. IsParsed x v) p q in (i, has ∙ ap some e, le, lt)
u64-bounds m a k n t p d (default u v e has g q r) =
    let (i, e', le, lt) = subst (λ x. IsParsed x v) p q in (i, has ∙ ap some e', le, lt)
u64-bounds m a k n t p d (absent e has g) = absurd (cc)

pub one_of-choice :
    (m : ArgMatches) (a : Arg) (ts : List Text) (t : Text)
    → a.value_parser ≡ one_of ts
    → a.default_value ≡ some t
    → Matched m a
    → (u : Text) × (m.value_of a.id ≡ some (text_value u)) × OneOf u ts
one_of-choice m a ts t p d (given v has g q c) =
    let (u, e, o) = subst (λ x. IsParsed x v) p q in (u, has ∙ ap some e, o)
one_of-choice m a ts t p d (default w v e has g q r) =
    let (u, e', o) = subst (λ x. IsParsed x v) p q in (u, has ∙ ap some e', o)
one_of-choice m a ts t p d (absent e has g) = absurd (cc)

pub as_text-none : (v : Option Value) → v ≡ none → as_text v ≡ none
unfolding as_text
as_text-none v e = ap as_text e
