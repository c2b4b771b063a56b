-- ===== src/Lib.antt =====
-- A model of gruezi: in its HA mode, two nodes share virtual addresses, advertise themselves to
-- one another over UDP, and decide which of them is active.
--
-- The parts, and how they interact. A configuration is read and validated (src/config.rs) and
-- turned into the runtime configuration of the HA loop (src/gruezi/ha.rs). The loop keeps one
-- state; before every wait it decides from the last observation of its peer which HA state it
-- should be in, and on a change it asks for an address action (src/gruezi/addresses.rs) and a
-- hook (src/gruezi/hooks.rs). The datagrams that arrive are decoded, checked and authenticated,
-- and become the observation; the timer sends the node's own advertisement. A snapshot of the
-- state goes to the status channel that the management API (src/gruezi/api.rs) reads. The
-- service (src/gruezi/start.rs) runs the loop and the API until a signal, and the command line
-- (src/cli) starts it, asks its status, or lists its peers.
--
-- Base holds what all files share: lists over the native numbers, results for `anyhow::Result`,
-- machine words, big-endian bytes, and `Duration` and `Instant` as numbers of nanoseconds. Text
-- is Rust's `String` as a list of code points (`IsText` says that each is a scalar value), with
-- trimming, comparison by bytes, and in Text/Utf8 the decoder `String::from_utf8`. Net has IP
-- addresses and how they print (src/gruezi/net.rs: `format_socket_addr`).
--
-- Config (src/config.rs): the records and their defaults, `validate`, `from_yaml_str` and
-- `from_path`; the YAML parser and the content of the file are arguments. Config/Valid says what
-- is valid. Hooks (src/gruezi/hooks.rs): `script_for`, `hook_command`, `run`; the process with
-- its time limit is the argument `exec_within`. Addresses (src/gruezi/addresses.rs): `apply`,
-- `run_address_command`, `announce_address` and the spawned task; the system that runs commands
-- is the argument `exec` over its states.
--
-- Ha (src/gruezi/ha.rs): State and Error have the enums, and the errors with the messages by
-- which `is_auth_failure` sorts them. Runtime has `HaRuntimeConfig`, its timers and its
-- conversion. Cursor is `PacketCursor` as a state monad with errors; Packet has `encode`,
-- Packet/Decode `decode`. Auth has the tag; the hasher is the argument `hash` on the bytes
-- written to it, as the standard library leaves its algorithm open, on a little-endian machine.
-- Receive has `handle_incoming_packet`, Decision `desired_state` with its helpers, Status the
-- snapshot. Loop and Loop/Handlers have the handlers: each takes the time that the source reads
-- from the clock, and gives the new state with the effects in order (status published, datagram
-- sent, address action and hook asked for or run). Loop/Run has the loop: a list of rounds, each
-- with the event that `select!` picks and with what the socket gives, so that every interleaving
-- is a list, and the loop ends with the first round that stops it or fails.
--
-- Cluster puts two nodes and a network together: a step is one round of one node's loop, and
-- what it receives is a datagram that was sent before. Another sender is outside this part.
-- Cluster/Knowledge is about one round, Safety, Stable and Numbers about any number of them,
-- Exchange and Healing about three rounds of each node, Settles about what follows them, and
-- Replay about old datagrams.
--
-- Sockets is `bind_tcp_listener` (src/gruezi/net.rs) and `bind_ha_socket` (src/gruezi/ha.rs)
-- over an argument `exec` for the calls of socket2 and Tokio, with the retry as a recursion on
-- the number of attempts that are left.
--
-- Service (src/gruezi/start.rs) is `start_ha_service` as a step relation on three tasks: the HA
-- loop, the API and the select, in any interleaving. A task may panic, which its handle then
-- tells; the loop sees the shutdown only when the channel holds it or the sender is gone, and
-- the API ends well only then. `start_service`, the path without a configuration file, starts
-- nothing in the source. Service/Sound is its invariant. Signals is `shutdown_signal`
-- (src/gruezi/signal.rs).
--
-- Api (src/gruezi/api.rs, src/gruezi/status.rs) has the routes over the value of the status
-- channel, which is the status that the effects of the loop published last, and the client with
-- its URL. The HTTP library between them is an argument of `fetch_status`.
--
-- Cli (src/cli, src/bin/gruezi.rs): Commands and Options have the command line as data, Dispatch
-- the handler on what clap matched, where a getter that clap would panic in is an error, and
-- Dispatch/Matching what clap documents of its matches. Start, Status and Peers (with
-- src/gruezi/peers.rs) are the actions, with the lines that they print; Main is the order of the
-- program. Telemetry is the set-up of the trace export; tonic's `MetadataMap` is its argument `M`,
-- with `new_map` and `insert`.
--
-- Bounds and fuel. Numbers are native; u8, u16, u32 and u64 are ranges, saturating and wrapping
-- operations are written out (`sequence + 1` in `handle_send_event` as in a release build). An
-- `Instant` has no upper bound, where the standard library panics beyond its own. The loops over
-- lists, bytes, rounds and polls are structural; the decimal digits use as fuel the number
-- itself and one, of which each step takes at least one.
--
-- Not modelled: the log and its filters, but for the changes of the state in Ha/Loop/Log, the
-- Tokio runtime itself, the calls of sockets, of HTTP, of clap's parser and of OpenTelemetry, the
-- packaging and the scripts: they are input and output or calls of libraries. A spawned address
-- action or hook is an effect at the moment at which it is asked for; when its task runs is not.
pub mod Base
pub mod Text
pub mod Net
pub mod Hooks
pub mod Config
pub mod Addresses
pub mod Ha
pub mod Signals
pub mod Service
pub mod Api
pub mod Cli
pub mod Sockets
pub mod Cluster
pub mod Tests
