-- ===== src/Cli/Status.antt =====
-- The status action of src/cli/actions/status.rs: what it prints. The request and the signal are
-- its arguments, and each poll of `--watch` is a value.
pub mod Snapshot
pub mod Watch
pub mod Printed
use gruezi.Base.{ℕ, Bool, true, false, Option, none, some, List, [], ◌∷◌, ◌++◌, if◌then◌else◌}
use mathlib.Core.Option
use gruezi.Base.Result.{Result, ok, err}
use gruezi.Text.{Text, codes}
use gruezi.Text.Decimal.{display}
use gruezi.Ha.State.{HaState, debug_state, HaDecisionReason, as_str}
use gruezi.Ha.Status.{HaStatus}
use gruezi.Api.{StatusResponse, FetchError, query_failed, endpoint_error, decode_failed}
use gruezi.Cli.{Line, println, eprintln}

-- `Display` of `bool`
unfoldable pub display_bool : Bool → Text
display_bool true = codes "true"
display_bool false = codes "false"

-- `{ms}ms`
unfoldable pub millis : ℕ → Text
unfolding display
millis ms = display ms ++ codes "ms"

-- `map_or_else(|| "unknown".to_owned(), ..)`
unfoldable pub or_unknown : Option Text → Text
or_unknown none = codes "unknown"
or_unknown (some t) = t

unfoldable pub ha_lines : HaStatus → List Text
unfolding display_bool millis or_unknown
ha_lines ha =
    (codes "  Node ID: " ++ ha.node_id)
    ∷ (codes "  Group ID: " ++ ha.group_id)
    ∷ (codes "  HA State: " ++ debug_state ha.state)
    ∷ (codes "  Bind: " ++ ha.bind)
    ∷ (codes "  Peer: " ++ ha.peer)
    ∷ (codes "  Priority: " ++ display ha.priority)
    ∷ (codes "  Advert Interval: " ++ millis ha.advert_interval_ms)
    ∷ (codes "  Dead Timeout: " ++ millis ha.dead_timeout_ms)
    ∷ (codes "  Hold Down: " ++ millis ha.hold_down_ms)
    ∷ (codes "  Peer Alive: " ++ display_bool ha.peer_alive)
    ∷ (codes "  Last Peer Seen: " ++ or_unknown (Option.map millis ha.last_peer_seen_ms_ago))
    ∷ (codes "  Peer Node ID: " ++ or_unknown ha.peer_node_id)
    ∷ (codes "  Peer State: " ++ or_unknown (Option.map debug_state ha.peer_state))
    ∷ (codes "  Sequence: " ++ display ha.sequence)
    ∷ (codes "  Packets Sent: " ++ display ha.packets_sent)
    ∷ (codes "  Packets Received: " ++ display ha.packets_received)
    ∷ (codes "  Invalid Packets: " ++ display ha.invalid_packets)
    ∷ (codes "  Auth Failures: " ++ display ha.auth_failures)
    ∷ (codes "  Duplicate Node ID Packets: " ++ display ha.duplicate_node_id_packets)
    ∷ (codes "  Decision Reason: " ++ as_str ha.decision_reason)
    ∷ (codes "  Last Transition Reason: "
        ++ or_unknown (Option.map as_str ha.last_transition_reason))
    ∷ (codes "  Last Transition: " ++ or_unknown (Option.map millis ha.last_transition_ms_ago))
    ∷ []

unfoldable lines_of : Option HaStatus → List Text
unfolding ha_lines
lines_of none = []
lines_of (some ha) = ha_lines ha

-- `snapshot_lines`
unfoldable pub snapshot_lines : StatusResponse → List Text
unfolding lines_of
snapshot_lines status =
    codes "Node Status:" ∷ (codes "  Mode: " ++ status.mode) ∷ lines_of status.ha_status

-- The fields of a line of `--watch`.
watch_fields : HaStatus → Text
unfolding display_bool millis or_unknown
watch_fields ha =
    codes " node="
    ++ (ha.node_id
        ++ (codes " state="
            ++ (debug_state ha.state
                ++ (codes " reason="
                    ++ (as_str ha.decision_reason
                        ++ (codes " last_transition_reason="
                            ++ (or_unknown (Option.map as_str ha.last_transition_reason)
                                ++ (codes " peer_alive="
                                    ++ (display_bool ha.peer_alive
                                        ++ (codes " peer_node="
                                            ++ (or_unknown ha.peer_node_id
                                                ++ (codes " peer_state="
                                                    ++ or_unknown (
                                                        Option.map debug_state
                                                          ha.peer_state)))))))))))))

watch_counters : HaStatus → Text
unfolding millis or_unknown
watch_counters ha =
    codes " seq="
    ++ (display ha.sequence
        ++ (codes " sent="
            ++ (display ha.packets_sent
                ++ (codes " recv="
                    ++ (display ha.packets_received
                        ++ (codes " invalid="
                            ++ (display ha.invalid_packets
                                ++ (codes " auth_failures="
                                    ++ (display ha.auth_failures
                                        ++ (codes " duplicate_node_id_packets="
                                            ++ (display ha.duplicate_node_id_packets
                                                ++ (codes " last_peer_seen="
                                                    ++ (or_unknown (
                                                          Option.map millis
                                                            ha.last_peer_seen_ms_ago)
                                                        ++ (codes " last_transition="
                                                            ++ or_unknown (
                                                            Option.map millis
                                                            ha.last_transition_ms_ago)))))))))))))))

watch_rest : StatusResponse → Option HaStatus → Text
unfolding watch_fields watch_counters
watch_rest status none = codes " mode=" ++ status.mode
watch_rest status (some ha) = watch_fields ha ++ watch_counters ha

stamped : Text → Text → Text
stamped timestamp rest = codes "[" ++ (timestamp ++ (codes "]" ++ rest))

-- `format_watch_line`
unfoldable pub format_watch_line : Text → StatusResponse → Text
unfolding watch_rest stamped
format_watch_line timestamp status = stamped timestamp (watch_rest status status.ha_status)

-- `Display` of the error of `fetch_status`, its outermost context
unfoldable pub display_fetch_error : FetchError → Text
display_fetch_error (query_failed endpoint) = codes "failed to query status endpoint " ++ endpoint
display_fetch_error (endpoint_error endpoint) =
    codes "status endpoint returned an error for " ++ endpoint
display_fetch_error (decode_failed endpoint) =
    codes "failed to decode status response from " ++ endpoint

-- One turn of the loop of `watch_status`: the time, what the request gives, and whether Ctrl-C comes
-- before the pause ends, with what waiting for it gives.
pub record Poll : Type 0 where
  pub now : Text
  pub fetched : Result FetchError StatusResponse
  pub interrupt : Option (Result (Unit {0}) (Unit {0}))

unfoldable pub poll_line : Text → Result FetchError StatusResponse → Line
unfolding format_watch_line stamped display_fetch_error
poll_line now (ok status) = println (format_watch_line now status)
poll_line now (err e) =
    eprintln (stamped now (codes " status query failed: " ++ display_fetch_error e))

-- The lines, and the result once the loop has ended.
abbrev pub Watched : Type 0
Watched = List Line × Option (Result (Unit {0}) (Unit {0}))

unfoldable pub after_poll : Option (Result (Unit {0}) (Unit {0})) → Watched → Watched
after_poll none rest = rest
after_poll (some result) rest = ([], some result)

-- The loop of `watch_status`, over the polls as they come.
unfoldable pub watch_loop : List Poll → Watched
unfolding poll_line after_poll
watch_loop [] = ([], none)
watch_loop (p ∷ ps) =
    let rest = watch_loop ps in
    let (lines, result) = after_poll p.interrupt rest in (poll_line p.now p.fetched ∷ lines, result)

watching : Option Text → Line
watching none = println (codes "Watching local management API")
watching (some node) = println (codes "Watching node: " ++ node)

watch_intro : Option Text → Bool → ℕ → List Line
unfolding watching millis
watch_intro node verbose interval_ms =
    if verbose
    then watching node
      ∷ println (codes "Polling interval: " ++ millis interval_ms)
      ∷ println (codes "Press Ctrl-C to stop")
      ∷ []
    else []

-- `watch_status`
unfoldable pub watch_status : Option Text → Bool → ℕ → List Poll → Watched
unfolding watch_intro watch_loop
watch_status node verbose interval_ms polls =
    let (lines, result) = watch_loop polls in
    (watch_intro node verbose interval_ms ++ lines, result)

printed : List Text → List Line
printed [] = []
printed (l ∷ ls) = println l ∷ printed ls

querying : Option Text → Line
querying none = println (codes "Querying local management API")
querying (some node) = println (codes "Querying node: " ++ node)

query_intro : Option Text → Bool → List Line
unfolding querying
query_intro node verbose = if verbose then querying node ∷ [] else []

-- `print_snapshot`, after the request.
print_snapshot :
    List Line → Result FetchError StatusResponse → List Line × Result FetchError (Unit {0})
unfolding printed snapshot_lines
print_snapshot lines (ok status) = (lines ++ printed (snapshot_lines status), ok tt)
print_snapshot lines (err e) = (lines, err e)

-- `run` without `--watch`
unfoldable pub run_once :
    Option Text → Bool → Result FetchError StatusResponse → List Line × Result FetchError (Unit {0})
unfolding query_intro print_snapshot
run_once node verbose fetched = print_snapshot (query_intro node verbose) fetched
