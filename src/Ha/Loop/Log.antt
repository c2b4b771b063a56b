-- ===== src/Ha/Loop/Log.antt =====
-- The entries that `log_state_change` of src/gruezi/ha.rs writes, beside the status that the loop
-- publishes.
use gruezi.Base.{
  ℕ, ◌≡◌, refl, ap, ◌∙◌, subst, arith, Bool, true, false, not, if◌then◌else◌, Option, none, some,
}
use gruezi.Base.Duration.{saturating_elapsed_ms}
use gruezi.Base.Word.{Bytes}
use gruezi.Text.{Text, codes}
use gruezi.Ha.Loop.{refresh_local_state, decision_of, decided}
use gruezi.Ha.Loop.Handlers.{cleanup_before_exit}
use gruezi.Ha.Receive.{PeerObservation}
use gruezi.Ha.Runtime.{HaRuntimeConfig}
use gruezi.Ha.State.{
  HaState, init, state_eq, debug_state, HaDecisionReason, runtime_fault, graceful_shutdown, as_str,
}
use gruezi.Ha.Status.{HaLoopState, HaStatus, status_snapshot}
use mathlib.Core.Option

-- The fields of an entry; `?previous` and `?current` print a state as `Debug` does.
pub record StateChange : Type 0 where
  pub node_id : Text
  pub previous : Text
  pub current : Text
  pub reason : Text
  pub local_priority : ℕ
  pub peer_node_id : Text
  pub peer_state : Text
  pub peer_priority : Option ℕ
  pub last_peer_seen_ms_ago : Option ℕ

-- `map_or("unknown", ..)` and `unwrap_or("unknown")`
unfoldable pub unknown_or : Option Text → Text
unknown_or none = codes "unknown"
unknown_or (some t) = t

abbrev entry :
    HaState → HaState → HaDecisionReason → Text → ℕ → Option PeerObservation → ℕ → StateChange
entry previous current reason node_id local_priority seen now = record {
  node_id = node_id;
  previous = debug_state previous;
  current = debug_state current;
  reason = as_str reason;
  local_priority = local_priority;
  peer_node_id = unknown_or (Option.map (λ o. o.node_id) seen);
  peer_state = unknown_or (Option.map (λ o. debug_state o.state) seen);
  peer_priority = Option.map (λ o. o.priority) seen;
  last_peer_seen_ms_ago = Option.map (λ o. saturating_elapsed_ms now o.observed_at) seen;
}

-- `log_state_change`; `none` where nothing is written.
unfoldable pub log_state_change :
    HaState
    → HaState
    → HaDecisionReason
    → Text
    → ℕ
    → Option PeerObservation
    → ℕ
    → Option StateChange
log_state_change previous current reason node_id local_priority seen now =
    if state_eq previous current
    then none
    else some (entry previous current reason node_id local_priority seen now)

-- What `refresh_local_state` writes.
unfoldable pub refresh_log : HaRuntimeConfig → HaLoopState → ℕ → Option StateChange
refresh_log r s now =
    let d = decision_of r s now in
    if state_eq s.state d.state
    then none
    else log_state_change s.state d.state d.reason r.node_id r.priority s.peer_observation now

-- What `cleanup_before_exit` writes.
unfoldable pub cleanup_log : HaRuntimeConfig → HaLoopState → Bool → ℕ → Option StateChange
cleanup_log r s faulted now =
    if not (state_eq s.state init)
    then log_state_change s.state init (if faulted then runtime_fault else graceful_shutdown)
        r.node_id r.priority s.peer_observation now
    else none

-- An entry tells what a status shows of a transition that happened just now.
record Tells (e : StateChange) (status : HaStatus) : Type 0 where
  node_id : e.node_id ≡ status.node_id
  current : e.current ≡ debug_state status.state
  reason : e.reason ≡ as_str status.decision_reason
  priority : e.local_priority ≡ status.priority
  peer_node_id : e.peer_node_id ≡ unknown_or status.peer_node_id
  peer_state : e.peer_state ≡ unknown_or (Option.map debug_state status.peer_state)
  peer_seen : e.last_peer_seen_ms_ago ≡ status.last_peer_seen_ms_ago
  just_now : status.last_transition_ms_ago ≡ some 0

map-debug :
    (seen : Option PeerObservation)
    → Option.map (λ o. debug_state o.state) seen
      ≡ Option.map debug_state (Option.map (λ o. o.state) seen)
map-debug none = refl
map-debug (some o) = refl

elapsed_now : (t : ℕ) → saturating_elapsed_ms t t ≡ 0
unfolding saturating_elapsed_ms
elapsed_now t = omega arith

unless_written :
    (b : Bool) (x : Option StateChange) (e : StateChange)
    → (if b then none else x) ≡ some e
    → (b ≡ false) × (x ≡ some e)
unless_written true x e h = absurd (cc h)
unless_written false x e h = (refl, h)

when_written :
    (b : Bool) (x : Option StateChange) (e : StateChange)
    → (if not b then x else none) ≡ some e
    → (b ≡ false) × (x ≡ some e)
when_written true x e h = absurd (cc h)
when_written false x e h = (refl, h)

logged-entry :
    (previous current : HaState) (reason : HaDecisionReason) (node_id : Text) (local_priority : ℕ)
    (seen : Option PeerObservation) (now : ℕ) (e : StateChange)
    → log_state_change previous current reason node_id local_priority seen now ≡ some e
    → (state_eq previous current ≡ false)
      × (entry previous current reason node_id local_priority seen now ≡ e)
unfolding log_state_change
logged-entry previous current reason node_id local_priority seen now e h =
    let (moved, same) = unless_written (state_eq previous current) _ e h in (moved, cc same)

logged-Tells :
    (r : HaRuntimeConfig) (previous : HaState) (s : HaLoopState) (now : ℕ) (e : StateChange)
    → s.last_transition_at ≡ some now
    → log_state_change previous s.state s.decision_reason r.node_id r.priority s.peer_observation
        now
      ≡ some e
    → Tells e (status_snapshot r s now)
unfolding status_snapshot
logged-Tells r previous s now e moved h =
    subst (λ x. Tells x (status_snapshot r s now))
      (logged-entry previous s.state s.decision_reason r.node_id r.priority s.peer_observation now e
        h).1
      (record {
        node_id = refl;
        current = refl;
        reason = refl;
        priority = refl;
        peer_node_id = refl;
        peer_state = ap unknown_or (map-debug s.peer_observation);
        peer_seen = refl;
        just_now = ap (Option.map (saturating_elapsed_ms now)) moved ∙ ap some (elapsed_now now);
      })

-- An entry that a refresh writes tells what the status after it shows.
refresh_log-Tells :
    (r : HaRuntimeConfig) (has_tx : Bool) (s : HaLoopState) (now : ℕ) (e : StateChange)
    → refresh_log r s now ≡ some e
    → Tells e (status_snapshot r (refresh_local_state r has_tx s now).0 now)
unfolding refresh_local_state decided refresh_log
refresh_log-Tells r has_tx s now e h =
    let (moved, written) = unless_written (state_eq s.state (decision_of r s now).state) _ e h in
    rw moved (logged-Tells r s.state _ now e refl written)

-- So does one that the end of the loop writes.
cleanup_log-Tells :
    (hash : Bytes → ℕ) (r : HaRuntimeConfig) (has_tx : Bool) (s : HaLoopState) (faulted : Bool)
    (now : ℕ) (e : StateChange)
    → cleanup_log r s faulted now ≡ some e
    → Tells e (status_snapshot r (cleanup_before_exit hash r has_tx s faulted now).0 now)
unfolding cleanup_before_exit cleanup_log
cleanup_log-Tells hash r has_tx s faulted now e h =
    let (moved, written) = when_written (state_eq s.state init) _ e h in
    rw moved (logged-Tells r s.state _ now e refl written)
