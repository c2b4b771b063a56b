-- ===== src/Tests/Commands.antt =====
-- The theorems on the command line at concrete inputs.
use gruezi.Base.{
  Option, ◌≡◌, ◌⊎◌, ◌↔◌, inl, refl, true, false, none, some, [], ◌∷◌, All, Bool, List, arith,
  if◌then◌else◌,
}
use gruezi.Base.Result.{ok}
use gruezi.Config.{default_ha_bind}
use gruezi.Tests.Loaded.{from_str}
use gruezi.Text.{Text, codes, text_eq, trim, trim_start, is_whitespace, starts_with}
use gruezi.Ha.Status.{new_status}
use gruezi.Api.{StatusResponse, status_response, ends_with}
use gruezi.Cli.{Action}
use gruezi.Cli.Commands.{new, start_command}
use gruezi.Cli.Options.{config_arg, bind_arg, peers_arg, node_id_arg}
use gruezi.Cli.Dispatch.{text_value, ArgMatches, Matches, handler}
use gruezi.Cli.Dispatch.Total.{handler-IsGood}
use gruezi.Cli.Dispatch.Matching.{given, default, absent, IsMatched, IsGood}
use gruezi.Cli.Start.{run_start}
use gruezi.Cli.Start.Succeeds.{IsChosen, Serves, run_start-ok_iff}
use gruezi.Cli.Status.Snapshot.{AgreeHa, snapshot_lines-AgreeHa}
use gruezi.Cli.Telemetry.{Header, ascii_header, binary_header, parse_headers, to_ascii_lowercase}
use gruezi.Cli.Telemetry.Headers.{
  header_name, IsMap, Entry, IsEntry, as_text, as_bytes, parse_headers-render,
}

-- `gruezi -v start --config c.yaml`
abbrev start_matches : ArgMatches
start_matches = record {
  value_of = λ id.
      if text_eq id (codes "config")
      then some (text_value (codes "c.yaml"))
      else if text_eq id (codes "bind")
      then some (text_value default_ha_bind)
      else none;
  flag_of = λ id. false;
  count_of = λ id. 0;
  is_given = λ id. text_eq id (codes "config");
}

abbrev with_config : Matches
with_config = record {
  root = record {
    value_of = λ id. none;
    flag_of = λ id. false;
    count_of = λ id. 1;
    is_given = λ id. true;
  };
  subcommand = some (codes "start", start_matches);
}

IsMatched-with_config : IsMatched with_config
unfolding new start_command config_arg bind_arg peers_arg node_id_arg text_eq
IsMatched-with_config = record {
  command = start_command;
  matches = start_matches;
  is_command = inl refl;
  subcommand = refl;
  args = (
    given (text_value (codes "c.yaml")) refl refl (codes "c.yaml", refl) (refl, (refl, (refl, tt))),
    (
      default default_ha_bind (text_value default_ha_bind) refl refl refl (default_ha_bind, refl)
          refl,
      (absent refl refl refl, (absent refl refl refl, tt)),
    ),
  );
}

handler-IsGood_example : (action : Action) × (handler new with_config ≡ ok action) × IsGood action
handler-IsGood_example = handler-IsGood with_config IsMatched-with_config

-- The only file is `c.yaml`, the one of the command line.
abbrev files : Text → Option Text
files path = if text_eq path (codes "c.yaml") then some (codes "mode: ha") else none

run_start-ok_iff_example :
    ((run_start files
        (λ path. false)
        none
        from_str
        (λ r. ok tt)
        (some (codes "c.yaml"))
        (codes "0.0.0.0:9375")
        none
        none
        true).1
      ≡ ok tt)
    ↔ (IsChosen files (λ path. false) none from_str (λ r. ok tt) (some (codes "c.yaml")) none
        ⊎ ((path : Text) × IsChosen files
              (λ path. false)
              none
              from_str
              (λ r. ok tt)
              (some (codes "c.yaml"))
              (some path)
            × Serves files (λ path. false) none from_str (λ r. ok tt) path))
run_start-ok_iff_example =
    run_start-ok_iff files (λ path. false) none from_str (λ r. ok tt) (some (codes "c.yaml"))
      (codes "0.0.0.0:9375") none none true

abbrev shown : StatusResponse
shown = status_response (new_status (codes "a") (codes "g") (codes "b") (codes "p"))

snapshot_lines-AgreeHa_example : (shown.mode ≡ shown.mode) × AgreeHa shown.ha_status shown.ha_status
snapshot_lines-AgreeHa_example = snapshot_lines-AgreeHa shown shown refl

-- Any name and value are valid, and Base64 is left as it is.
abbrev any_text : Text → Bool
any_text s = true

abbrev headers : List Entry
headers =
    record {
      key = codes "authorization";
      value = codes "Bearer a=b";
      header = ascii_header (codes "authorization") (codes "Bearer a=b");
    }
    ∷ record {
      key = codes "custom-bin";
      value = codes "YQ";
      header = binary_header (codes "custom-bin") (codes "YQ");
    }
    ∷ record {
      key = codes "authorization";
      value = codes "none";
      header = ascii_header (codes "authorization") (codes "none");
    }
    ∷ []

headers-IsEntry : All (IsEntry any_text any_text any_text some) headers
unfolding ends_with trim to_ascii_lowercase trim_start is_whitespace starts_with
headers-IsEntry = (
  record {
    spells = as_text (codes "authorization") (codes "Bearer a=b") refl refl refl;
    lower = refl;
    trimmed_key = refl;
    trimmed_value = refl;
    no_equals = omega arith;
    no_comma_key = omega arith;
    no_comma_value = omega arith;
  },
  (
    record {
      spells = as_bytes (codes "custom-bin") (codes "YQ") (codes "YQ") refl refl refl;
      lower = refl;
      trimmed_key = refl;
      trimmed_value = refl;
      no_equals = omega arith;
      no_comma_key = omega arith;
      no_comma_value = omega arith;
    },
    (
      record {
        spells = as_text (codes "authorization") (codes "none") refl refl refl;
        lower = refl;
        trimmed_key = refl;
        trimmed_value = refl;
        no_equals = omega arith;
        no_comma_key = omega arith;
        no_comma_value = omega arith;
      },
      tt,
    ),
  ),
)

-- A map as the list of the insertions, the last one first.
find : Text → List Header → Option Header
find name [] = none
find name (h ∷ hs) =
    let rest = find name hs in if text_eq (header_name h) name then some h else rest

list-IsMap : IsMap [] (λ h hs. h ∷ hs) find
unfolding find
list-IsMap = record { get_new = λ name. refl; get_inserted = λ name header m. refl }

parse_headers-render_example :
    (found : List Header) × (parse_headers any_text any_text any_text some []
        (λ h hs. h ∷ hs)
        (codes "authorization=Bearer a=b,custom-bin=YQ,authorization=none")
      ≡ ok found)
    × (find (codes "authorization") found
        ≡ some (ascii_header (codes "authorization") (codes "none")))
unfolding text_eq
parse_headers-render_example =
    parse_headers-render any_text any_text any_text some [] (λ h hs. h ∷ hs) find headers
      (codes "authorization") list-IsMap headers-IsEntry
